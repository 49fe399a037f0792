-- ===== src/Tools/Invariant.antt =====
-- tool_builder.hpp: the descriptors of a builder agree with its parameter pack.
use copilot_cpp.Prelude.{
  ◌≡◌, refl, true, false, ◌⊎◌, inl, inr, none, some, String, List, [], ◌∷◌, ◌++◌,
}
use copilot_cpp.Prelude.Exec.{ok}
use copilot_cpp.Json.{Json}
use copilot_cpp.Tools.{Shape, Meaning, Conversions, schema, ParamDescriptor}
use copilot_cpp.Tools.Building.{
  Params, nil, cons, ToolBuilderWithParams, required_param, push, on_last, restrict, make_default,
  first_param, param, one_of, default_value,
}

abbrev pub last : Shape → List Shape → Shape
last s [] = s
last s (t ∷ ss) = last t ss

module _ {J : Json} (C : Conversions J) where
  open C use {scalars, get}
  open J use {Value, is_null}

  -- A default value, which the type of the parameter can be read from.
  abbrev pub IsDefault : Shape → Value → Type 0
  IsDefault s d = (x : Meaning scalars s) × (get s d ≡ ok x)

  -- The builders that the operations make, each default value being one of its parameter's type.
  pub data Builds : (s : Shape) (ss : List Shape) → ToolBuilderWithParams J s ss → Type 0 where
    starts :
        (tool about : String) (s : Shape) (name description : String)
        → Builds s [] (first_param {J = J} tool about s name description)
    adds :
        {s : Shape} {ss : List Shape} {b : ToolBuilderWithParams J s ss}
        → Builds s ss b
        → (t : Shape) (name description : String)
        → Builds s (ss ++ t ∷ []) (param b t name description)
    restricts :
        {s : Shape} {ss : List Shape} {b : ToolBuilderWithParams J s ss}
        → Builds s ss b
        → (vs : List Value) → Builds s ss (one_of b vs)
    defaults :
        {s : Shape} {ss : List Shape} {b : ToolBuilderWithParams J s ss}
        → Builds s ss b
        → (d : Value) → IsDefault (last s ss) d
        → Builds s ss (default_value b d)

  -- A descriptor agrees with the type of its parameter: it has the type's schema, and it is required
  -- or has a default value of the type, not both.
  abbrev pub IsSound : Shape → ParamDescriptor J → Type 0
  IsSound s p =
      (p.type_schema ≡ schema J s)
      × (((p.required ≡ true) × (p.default_value ≡ none))
          ⊎ ((p.required ≡ false) × (d : Value) × (p.default_value ≡ some d) × IsDefault s d))

  abbrev pub AllSound : {ss : List Shape} → Params J ss → Type 0
  AllSound nil = Unit
  AllSound (cons {s} p ps) = IsSound s p × AllSound ps

  push-AllSound :
      {ss : List Shape} (ps : Params J ss) (s : Shape) (p : ParamDescriptor J)
      → AllSound ps
      → IsSound s p
      → AllSound (push ps s p)
  unfolding push
  push-AllSound nil s p all sound = (sound, tt)
  push-AllSound (cons q ps) s p all sound = (all.0, push-AllSound ps s p all.1 sound)

  on_last-AllSound :
      {s : Shape} {ss : List Shape} (f : ParamDescriptor J → ParamDescriptor J)
      (ps : Params J (s ∷ ss))
      → ((p : ParamDescriptor J) → IsSound (last s ss) p → IsSound (last s ss) (f p))
      → AllSound ps
      → AllSound (on_last f ps)
  unfolding on_last
  on_last-AllSound f (cons p nil) keeps all = (keeps p all.0, tt)
  on_last-AllSound f (cons p (cons q ps)) keeps all =
      (all.0, on_last-AllSound f (cons q ps) keeps all.1)

  -- Each descriptor of a builder agrees with the type at its place in the parameter pack, in whatever
  -- order `param`, `one_of` and `default_value` were called: it has the schema of that type, and it is
  -- required or has a default value of that type, not both. The default values that are given are
  -- assumed to be of their parameter's type.
  pub builder-AllSound :
      {s : Shape} {ss : List Shape} {b : ToolBuilderWithParams J s ss}
      → Builds s ss b
      → AllSound b.params
  unfolding first_param param one_of default_value
  builder-AllSound (starts tool about s name description) = ((refl, inl (refl, refl)), tt)
  builder-AllSound (adds {b} h t name description) =
      push-AllSound b.params t (required_param J t name description) (builder-AllSound h)
        (refl, inl (refl, refl))
  builder-AllSound (restricts {b} h vs) =
      on_last-AllSound (restrict vs) b.params (λ p sound. sound) (builder-AllSound h)
  builder-AllSound (defaults {b} h d fits) =
      on_last-AllSound (make_default d) b.params (λ p sound. (sound.0, inr (refl, d, refl, fits)))
        (builder-AllSound h)
