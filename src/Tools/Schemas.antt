-- ===== src/Tools/Schemas.antt =====
-- tool_builder.hpp: what the generated schemas say, and how the calls keep to it.
use copilot_cpp.Prelude.{
  ◌≡◌, refl, ap, ◌∙◌, Bool, true, false, some, String, List, [], ◌∷◌, ◌++◌, map, All, if◌then◌else◌,
}
use copilot_cpp.Prelude.Text.{lookup, str_eq, eq_refl}
use copilot_cpp.Json.{Json, IsLawful}
use copilot_cpp.Tools.{Members, ParamDescriptor}
use copilot_cpp.Tools.Building.{property, properties, required_names, generate_schema}

module _ {J : Json} where
  open J use {Value}

  lookup-properties_kept :
      (name : String) (v : Value) (props : Members J) (after : List (ParamDescriptor J))
      → All (λ (q : ParamDescriptor J). str_eq q.name name ≡ false) after
      → lookup name props ≡ some v
      → lookup name (properties J props after) ≡ some v
  unfolding properties
  lookup-properties_kept name v props [] other e = e
  lookup-properties_kept name v props (q ∷ after) other e =
      lookup-properties_kept name v ((q.name, Json.object J (property J q)) ∷ props) after other.1
        (rw other.0 e)

  lookup-properties :
      (props : Members J) (before after : List (ParamDescriptor J)) (p : ParamDescriptor J)
      → All (λ (q : ParamDescriptor J). str_eq q.name p.name ≡ false) after
      → lookup p.name (properties J props (before ++ p ∷ after))
        ≡ some (Json.object J (property J p))
  unfolding properties
  lookup-properties props [] after p other =
      lookup-properties_kept p.name (Json.object J (property J p))
        ((p.name, Json.object J (property J p)) ∷ props) after other (rw (eq_refl p.name) refl)
  lookup-properties props (q ∷ before) after p other =
      lookup-properties ((q.name, Json.object J (property J q)) ∷ props) before after p other

  required_names-around :
      (before after : List (ParamDescriptor J)) (p : ParamDescriptor J)
      → required_names J (before ++ p ∷ after)
        ≡ required_names J before
          ++ ((if p.required then p.name ∷ [] else []) ++ required_names J after)
  unfolding required_names
  required_names-around [] after p = by_required p.required
    where
      by_required :
          (b : Bool)
          → (if b then p.name ∷ required_names J after else required_names J after)
            ≡ (if b then p.name ∷ [] else []) ++ required_names J after
      by_required true = refl
      by_required false = refl
  required_names-around (q ∷ before) after p =
      by_required _ _ q.required (required_names-around before after p)
    where
      by_required :
          (l r : List String) (b : Bool)
          → l ≡ required_names J before ++ r
          → (if b then q.name ∷ l else l)
            ≡ (if b then q.name ∷ required_names J before else required_names J before) ++ r
      by_required l r true e = ap (◌∷◌ q.name) e
      by_required l r false e = e

  -- The schema of a tool has, under the name of a parameter, the schema of the parameter's type with
  -- its description and its allowed values, and the parameter's name is among the required ones just
  -- if the parameter is required. No later parameter has the same name.
  pub generate_schema_lem :
      IsLawful J
      → (before after : List (ParamDescriptor J)) (p : ParamDescriptor J)
      → All (λ (q : ParamDescriptor J). str_eq q.name p.name ≡ false) after
      → let schema = generate_schema J (before ++ p ∷ after) in
        ((props : Value) × (Json.at J schema "properties" ≡ some props)
          × (Json.at J props p.name ≡ some (Json.object J (property J p))))
        × (Json.at J schema "required"
            ≡ some (
                Json.array J (
                  map (Json.text J) (
                    required_names J before
                    ++ ((if p.required then p.name ∷ [] else []) ++ required_names J after)))))
  unfolding generate_schema
  generate_schema_lem L before after p other = (
    (
      Json.object J (properties J [] (before ++ p ∷ after)),
      IsLawful.at-object L _ "properties",
      IsLawful.at-object L _ p.name ∙ lookup-properties [] before after p other,
    ),
    IsLawful.at-object L _ "required"
        ∙ ap (λ l. some (Json.array J (map (Json.text J) l)))
            (required_names-around before after p),
  )
