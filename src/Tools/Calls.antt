-- ===== src/Tools/Calls.antt =====
-- tool_builder.hpp: the calls of a tool that was built with `param`, `one_of` and `default_value`.
use copilot_cpp.Prelude.{◌≡◌, refl, true, false, ◌⊎◌, inl, inr, none, some, String, List, ◌∷◌}
use copilot_cpp.Prelude.Text.{lookup}
use copilot_cpp.Prelude.Exec.{Result, ok, err}
use copilot_cpp.Json.{Json, IsLawful}
use copilot_cpp.Session.Tasks.{Thrown}
use copilot_cpp.Tools.{
  Shape, boolean, integer, number, text, array, optional, object, Meaning, Conversions, Arguments,
  Members, ToolResultObject, failure, produced_an_error, caught, both, is_optional, ParamDescriptor,
}
use copilot_cpp.Tools.Building.{
  Params, nil, cons, ToolBuilderWithParams, extract_param, extract_all, build_tool,
}
use copilot_cpp.Tools.Extraction.{
  Converts, extract_arg-some, extract_arg-none, extract_arg-optional, extract_arg_or-some,
  extract_arg_or-none,
}
use copilot_cpp.Tools.Invariant.{Builds, IsSound, AllSound, builder-AllSound}

both-err :
    {A B : Type 0} (r : Result String A) (q : Result String B)
    → (what : String) × (q ≡ err what)
    → (what : String) × (both r q ≡ err what)
both-err (ok a) q (what, e) = (what, rw e refl)
both-err (err what) q h = (what, refl)

module _ {J : Json} (C : Conversions J) where
  open C use {scalars, get}
  open J use {Value, is_null}

  -- The member of that name is there, is not null, and is read as `x`.
  abbrev pub IsGiven : Members J → String → (s : Shape) → Meaning scalars s → Type 0
  IsGiven m name s x =
      (v : Value) × (lookup name m ≡ some v) × (is_null v ≡ false) × Converts C s v x

  -- The value of an optional type that no member sets.
  abbrev pub IsAbsent : (s : Shape) → Meaning scalars s → Type 0
  IsAbsent (optional s) x = x ≡ none
  IsAbsent _ x = ⊥

  -- What a parameter stands for in a call: the member of its name, else its default value, else none
  -- for an optional type.
  abbrev pub IsArgument : Members J → (s : Shape) → ParamDescriptor J → Meaning scalars s → Type 0
  IsArgument m s p x =
      IsGiven m p.name s x
      ⊎ ((lookup p.name m ≡ none)
          × (((d : Value) × (p.default_value ≡ some d) × (get s d ≡ ok x))
              ⊎ ((p.default_value ≡ none) × IsAbsent s x)))

  abbrev pub AreArguments :
      Members J → {ss : List Shape} → Params J ss → Arguments scalars ss → Type 0
  AreArguments m nil xs = Unit
  AreArguments m (cons {s} p ps) (x, xs) = IsArgument m s p x × AreArguments m ps xs

  -- A parameter that the schema requires, of a type that is not optional, has no member.
  abbrev pub IsMissing : Members J → {ss : List Shape} → Params J ss → Type 0
  IsMissing m nil = ⊥
  IsMissing m (cons {s} p ps) =
      ((p.required ≡ true) × (is_optional s ≡ false) × (lookup p.name m ≡ none)) ⊎ IsMissing m ps

  module _ (L : IsLawful J) (m : Members J) where
    extract_param-given :
        (s : Shape) (p : ParamDescriptor J) (x : Meaning scalars s)
        → IsSound C s p
        → IsGiven m p.name s x
        → extract_param C s (Json.object J m) p ≡ ok x
    unfolding extract_param
    extract_param-given s p x (_, inl (_, e)) (v, at_name, some_value, c) =
        rw e (extract_arg-some C L m p.name s v x at_name some_value c)
    extract_param-given s p x (_, inr (_, d, e, (y, reads))) (v, at_name, some_value, c) =
        rw (e, reads) (extract_arg_or-some C L m p.name s v x y at_name some_value c)

    extract_param-absent :
        (s : Shape) (p : ParamDescriptor J) (x : Meaning scalars s)
        → p.default_value ≡ none
        → IsAbsent s x
        → lookup p.name m ≡ none
        → extract_param C s (Json.object J m) p ≡ ok x
    unfolding extract_param
    extract_param-absent (optional s) p x e q at_name =
        rw (e, q) (extract_arg-optional C L m p.name s at_name)
    extract_param-absent (array s) p x e q at_name = absurd q
    extract_param-absent boolean p x e q at_name = absurd q
    extract_param-absent integer p x e q at_name = absurd q
    extract_param-absent number p x e q at_name = absurd q
    extract_param-absent text p x e q at_name = absurd q
    extract_param-absent object p x e q at_name = absurd q

    extract_param-IsArgument :
        (s : Shape) (p : ParamDescriptor J) (x : Meaning scalars s)
        → IsSound C s p
        → IsArgument m s p x
        → extract_param C s (Json.object J m) p ≡ ok x
    unfolding extract_param
    extract_param-IsArgument s p x sound (inl given_x) = extract_param-given s p x sound given_x
    extract_param-IsArgument s p x sound (inr (at_name, inl (d, e, reads))) =
        rw (e, reads) (extract_arg_or-none C L m p.name s x at_name)
    extract_param-IsArgument s p x sound (inr (at_name, inr (e, absent))) =
        extract_param-absent s p x e absent at_name

    extract_all-AreArguments :
        {ss : List Shape} (ps : Params J ss) (xs : Arguments scalars ss)
        → AllSound C ps
        → AreArguments m ps xs
        → extract_all C ps (Json.object J m) ≡ ok xs
    unfolding extract_all
    extract_all-AreArguments nil xs sound h = refl
    extract_all-AreArguments (cons {s} p ps) (x, xs) sound h =
        rw (extract_param-IsArgument s p x sound.0 h.0, extract_all-AreArguments ps xs sound.1 h.1)
          refl

    extract_param-missing :
        (s : Shape) (p : ParamDescriptor J)
        → IsSound C s p
        → p.required ≡ true
        → is_optional s ≡ false
        → lookup p.name m ≡ none
        → extract_param C s (Json.object J m) p ≡ err (C.out_of_range (Json.object J m) p.name)
    unfolding extract_param
    extract_param-missing s p (_, inl (_, e)) needed single at_name =
        rw e (extract_arg-none C L m p.name s single at_name)
    extract_param-missing s p (_, inr (q, _, _, _)) needed single at_name = absurd cc

    extract_all-missing :
        {ss : List Shape} (ps : Params J ss)
        → AllSound C ps
        → IsMissing m ps
        → (what : String) × (extract_all C ps (Json.object J m) ≡ err what)
    unfolding extract_all
    extract_all-missing nil sound h = absurd h
    extract_all-missing (cons {s} p ps) sound (inl (needed, single, at_name)) = (
      C.out_of_range (Json.object J m) p.name,
      rw (extract_param-missing s p sound.0 needed single at_name) refl,
    )
    extract_all-missing (cons {s} p ps) sound (inr h) =
        both-err (extract_param C s (Json.object J m) p) _ (extract_all-missing ps sound.1 h)

    module _ {s : Shape} {ss : List Shape} where
      -- A call of a built tool gives its function the arguments that the object of the call stands for,
      -- and the result is what the function gives: each argument is the member of its parameter's name,
      -- if it is there and not null and can be read as the type, or, when there is none, the
      -- parameter's default value, or no value for an optional type without a default. Every default
      -- value is assumed to be of its parameter's type.
      pub build_tool-calls :
          (b : ToolBuilderWithParams J s ss)
          (fn : Arguments scalars (s ∷ ss) → Result Thrown ToolResultObject)
          (xs : Arguments scalars (s ∷ ss))
          → Builds C s ss b
          → AreArguments m b.params xs
          → (build_tool C b fn).handler (some (Json.object J m)) ≡ caught (fn xs)
      unfolding build_tool
      build_tool-calls b fn xs built h =
          rw (extract_all-AreArguments b.params xs (builder-AllSound C built) h) refl

      -- A call that lacks a parameter which is required, of a type that is not optional, is answered
      -- with a failure whose text says nothing of the cause, whatever the function does with
      -- arguments. Every default value is assumed to be of its parameter's type.
      pub build_tool-refuses :
          (b : ToolBuilderWithParams J s ss)
          (fn : Arguments scalars (s ∷ ss) → Result Thrown ToolResultObject)
          → Builds C s ss b
          → IsMissing m b.params
          → (what : String) × ((build_tool C b fn).handler (some (Json.object J m)) ≡ record {
            text_result_for_llm = produced_an_error;
            result_type = failure;
            error = some what;
          })
      unfolding build_tool caught
      build_tool-refuses b fn built h =
          let (what, e) = extract_all-missing b.params (builder-AllSound C built) h in
          (what, rw e refl)
