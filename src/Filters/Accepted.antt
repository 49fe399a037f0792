-- ===== src/Filters/Accepted.antt =====
-- include/copilot/types.hpp, src/client.cpp: the filters of a `ToolSet` in a session's configuration.
use Prim.Native.String.{◌++◌ as str_append, len}
use text.Mathlib.TextPositions.{len-append}
use mathlib.Core.Path.{subst}
use copilot_cpp.Prelude.{
  ◌<◌, ◌≡◌, refl, ap, Bool, true, false, ◌||◌, String, [], ◌∷◌, ◌++◌, All, All-append,
  if◌then◌else◌, Bool-cases, inl, inr, arith,
}
use copilot_cpp.Prelude.Text.{codes, str_eq, eq_iff}
use copilot_cpp.Prelude.Exec.{Result, ok, err, ok-injective}
use copilot_cpp.Directory.Building.{validate_tool_filters}
use copilot_cpp.Filters.{ToolSet, filter, all_allowed, add, add_built_in, add_custom, add_mcp}

-- a filter that is not the bare `*`
abbrev IsQualified : String → Type 0
IsQualified f = str_eq f "*" ≡ false

validate-IsQualified :
    (name : String) (filters : ToolSet)
    → All IsQualified filters
    → validate_tool_filters name filters ≡ ok tt
unfolding validate_tool_filters
validate-IsQualified name [] h = refl
validate-IsQualified name (f ∷ filters) (p, h) = rw p (validate-IsQualified name filters h)

-- the name of a source is longer than the bare `*`
filter-IsQualified : (source name : String) → 1 < len source → IsQualified (filter source name)
filter-IsQualified source name long = elim (Bool-cases (str_eq (filter source name) "*")) [
  | inl e ↦
      let same : filter source name ≡ "*" = (eq_iff (filter source name) "*").0 e in
      absurd (omega (arith, long, ap len same, len-append source (str_append ":" name)))
  | inr e ↦ e
]

-- The operations of a ToolSet.
pub data Operation : Type 0 where
  built_in custom mcp : String → Operation

abbrev pub perform : Operation → ToolSet → Result String ToolSet
perform (built_in name) = add_built_in name
perform (custom name) = add_custom name
perform (mcp name) = add_mcp name

-- A run of operations none of which throws.
pub data Made : ToolSet → Type 0 where
  none_yet : Made []
  more :
      {values values' : ToolSet}
      → Made values
      → (o : Operation) → perform o values ≡ ok values'
      → Made values'

add-ok :
    (source name : String) (values values' : ToolSet)
    → add source name values ≡ ok values'
    → values ++ filter source name ∷ [] ≡ values'
unfolding add
add-ok source name values values' e =
    by_tests (str_eq name "") (str_eq name "*" || all_allowed (codes name)) e
  where
    by_tests :
        (a b : Bool)
        → if◌then◌else◌ {A = Result String ToolSet} a (err "tool filter name cannot be empty") (
            if b
            then ok (values ++ filter source name ∷ [])
            else err "tool filter names may contain only letters, digits, '_' and '-'")
          ≡ ok values'
        → values ++ filter source name ∷ [] ≡ values'
    by_tests true b p = absurd cc
    by_tests false true p = ok-injective (values ++ filter source name ∷ []) values' p
    by_tests false false p = absurd cc

added :
    (source name : String) (values values' : ToolSet)
    → IsQualified (filter source name)
    → All IsQualified values
    → add source name values ≡ ok values'
    → All IsQualified values'
added source name values values' q h e =
    subst (All IsQualified) (add-ok source name values values' e)
      (All-append IsQualified values (filter source name ∷ []) h (q, tt))

Made-IsQualified : {values : ToolSet} → Made values → All IsQualified values
unfolding add_built_in add_custom add_mcp
Made-IsQualified none_yet = tt
Made-IsQualified (more {values} {values'} h (built_in name) e) =
    added "builtin" name values values' (filter-IsQualified "builtin" name (omega arith))
      (Made-IsQualified h) e
Made-IsQualified (more {values} {values'} h (custom name) e) =
    added "custom" name values values' (filter-IsQualified "custom" name (omega arith))
      (Made-IsQualified h) e
Made-IsQualified (more {values} {values'} h (mcp name) e) =
    added "mcp" name values values' (filter-IsQualified "mcp" name (omega arith))
      (Made-IsQualified h) e

-- The filters of a ToolSet, whichever operations made it, are accepted by the check that the
-- configuration of a session makes of them.
pub validate_tool_filters-Made :
    (name : String) (values : ToolSet) → Made values → validate_tool_filters name values ≡ ok tt
validate_tool_filters-Made name values h = validate-IsQualified name values (Made-IsQualified h)
