-- ===== src/Tools/Functions/Required.antt =====
-- tool_builder.hpp: calls of a tool of `make_tool`, and the names that its schema requires.
use mathlib.Core.Path.{subst}
use copilot_cpp.Prelude.{
  ℕ, suc, ◌≡◌, refl, sym, ap, ◌∙◌, Bool, true, false, inl, inr, Option, none, some, String, List,
  [], ◌∷◌, ◌++◌, length, All, is_some, if◌then◌else◌, ==_refl,
}
use copilot_cpp.Prelude.Text.{lookup}
use copilot_cpp.Prelude.Exec.{Result, ok, err, Result-cases}
use copilot_cpp.Json.{Json, IsLawful}
use copilot_cpp.Session.Tasks.{Thrown}
use copilot_cpp.Tools.{
  Shape, Meaning, Conversions, Arguments, Members, ToolResultObject, failure, produced_an_error,
  caught, both, is_optional, Tool, extract_arg,
}
use copilot_cpp.Tools.Functions.{
  required_args, extract_named, make_tool, make_tool_unnamed, argument_names, function_tool,
}
use copilot_cpp.Tools.Extraction.{extract_arg-none}

module _ {J : Json} (C : Conversions J) where
  open C use {scalars}
  open J use {Value}

  both-ok :
      {A B : Type 0} (r : Result String A) (q : Result String B) (x : A × B)
      → both r q ≡ ok x
      → ((a : A) × (r ≡ ok a)) × ((b : B) × (q ≡ ok b))
  both-ok (ok a) (ok b) x e = ((a, refl), (b, refl))
  both-ok (ok a) (err what) x e = absurd cc
  both-ok (err what) q x e = absurd cc

  module _ (L : IsLawful J) (m : Members J) where
    abbrev IsThere : String → Type 0
    IsThere name = is_some (lookup name m) ≡ true

    is_there :
        (s : Shape) (name : String) (x : Meaning scalars s)
        → is_optional s ≡ false
        → extract_arg C s (Json.object J m) name ≡ ok x
        → IsThere name
    is_there s name x single e = by_member (lookup name m) refl
      where
        by_member : (o : Option Value) → lookup name m ≡ o → is_some o ≡ true
        by_member none p = absurd (let q = sym (extract_arg-none C L m name s single p) ∙ e in cc)
        by_member (some v) p = refl

    -- Arguments that are read have all the names that the schema requires.
    extract_named-required :
        (ss : List Shape) (names : List String) (xs : Arguments scalars ss)
        → extract_named C ss names (Json.object J m) ≡ ok xs
        → All IsThere (required_args ss names)
    unfolding extract_named required_args
    extract_named-required [] names xs e = tt
    extract_named-required (s ∷ ss) [] xs e = tt
    extract_named-required (s ∷ ss) (name ∷ names) xs e =
        let ((x, read_first), (ys, read_rest)) = both-ok _ _ xs e in
        by_kind (is_optional s) refl x read_first (extract_named-required ss names ys read_rest)
      where
        by_kind :
            (b : Bool)
            → is_optional s ≡ b
            → (x : Meaning scalars s) → extract_arg C s (Json.object J m) name ≡ ok x
            → All IsThere (required_args ss names)
            → All IsThere (if b then required_args ss names else name ∷ required_args ss names)
        by_kind true p x read_first rest = rest
        by_kind false p x read_first rest = (is_there s name x p read_first, rest)

    All-at :
        (before after : List String) (name : String)
        → All IsThere (before ++ name ∷ after)
        → IsThere name
    All-at [] after name all = all.0
    All-at (b ∷ before) after name all = All-at before after name all.1

    -- a failed extraction, where a name that the schema requires has no member
    required_missing :
        (ss : List Shape) (names before after : List String) (name : String)
        → required_args ss names ≡ before ++ name ∷ after
        → lookup name m ≡ none
        → (what : String) × (extract_named C ss names (Json.object J m) ≡ err what)
    required_missing ss names before after name e at_name =
        elim (Result-cases (extract_named C ss names (Json.object J m))) [
          | inl (xs, p) ↦ absurd (
              let there : IsThere name =
                All-at before after name
                  (subst (All IsThere) e (extract_named-required ss names xs p)) in
              let q : ◌≡◌ {A = Bool} false true = ap is_some (sym at_name) ∙ there in cc)
          | inr h ↦ h
        ]

    -- make_tool keeps to the schema that it generates: with as many names as the function has
    -- arguments it makes a tool, and a call of that tool which lacks a member that the schema requires
    -- is answered with a failure whose text says nothing of the cause, whatever the function does with
    -- arguments.
    pub make_tool-refuses :
        (tool about : String) (ss : List Shape)
        (fn : Arguments scalars ss → Result Thrown ToolResultObject)
        (names before after : List String) (name : String)
        → length names ≡ length ss
        → required_args ss names ≡ before ++ name ∷ after
        → lookup name m ≡ none
        → (t : Tool J) × (what : String) × (make_tool C tool about ss fn names ≡ ok t)
          × (t.handler (some (Json.object J m)) ≡ record {
            text_result_for_llm = produced_an_error;
            result_type = failure;
            error = some what;
          })
    unfolding make_tool caught
    make_tool-refuses tool about ss fn names before after name count e at_name =
        let (what, failed) = required_missing ss names before after name e at_name in
        (
          function_tool C tool about ss fn names,
          what,
          rw (count, ==_refl (length ss)) refl,
          rw failed refl,
        )

  length-argument_names : (i : ℕ) (ss : List Shape) → length (argument_names i ss) ≡ length ss
  unfolding argument_names
  length-argument_names i [] = refl
  length-argument_names i (s ∷ ss) = ap suc (length-argument_names (suc i) ss)

  -- Without names of its own, a tool is always made.
  pub make_tool_unnamed-ok :
      (tool about : String) (ss : List Shape)
      (fn : Arguments scalars ss → Result Thrown ToolResultObject)
      → (t : Tool J) × (make_tool_unnamed C tool about ss fn ≡ ok t)
  unfolding make_tool_unnamed make_tool
  make_tool_unnamed-ok tool about ss fn = (
    function_tool C tool about ss fn (argument_names 0 ss),
    rw (length-argument_names 0 ss, ==_refl (length ss)) refl,
  )
