-- ===== src/Filters.antt =====
-- include/copilot/types.hpp: class `ToolSet`.
pub mod Accepted
use Prim.Native.Char.{code}
use Prim.Native.String.{◌++◌ as str_append}
use copilot_cpp.Prelude.{
  ℕ, Bool, true, false, ◌&&◌, ◌||◌, String, List, [], ◌∷◌, ◌++◌, leb, ◌==◌, if◌then◌else◌,
}
use copilot_cpp.Prelude.Text.{Bytes, codes, str_eq}
use copilot_cpp.Prelude.Exec.{Result, ok, err}

-- `std::isalnum` in the C locale
abbrev pub is_alnum : ℕ → Bool
is_alnum c =
    (leb b'0' c && leb c b'9') || ((leb b'A' c && leb c b'Z') || (leb b'a' c && leb c b'z'))

abbrev pub is_allowed : ℕ → Bool
is_allowed c = is_alnum c || (c == b'_' || c == b'-')

unfoldable pub all_allowed : Bytes → Bool
all_allowed [] = true
all_allowed (c ∷ s) = is_allowed c && all_allowed s

-- `values_`
abbrev pub ToolSet : Type 0
ToolSet = List String

abbrev pub filter : String → String → String
filter source name = str_append source (str_append ":" name)

-- add
unfoldable pub add : String → String → ToolSet → Result String ToolSet
unfolding all_allowed
add source name values =
    if str_eq name ""
    then err "tool filter name cannot be empty"
    else if str_eq name "*" || all_allowed (codes name)
    then ok (values ++ filter source name ∷ [])
    else err "tool filter names may contain only letters, digits, '_' and '-'"

unfoldable pub add_built_in : String → ToolSet → Result String ToolSet
unfolding add
add_built_in name = add "builtin" name

unfoldable pub add_custom : String → ToolSet → Result String ToolSet
unfolding add
add_custom name = add "custom" name

unfoldable pub add_mcp : String → ToolSet → Result String ToolSet
unfolding add
add_mcp name = add "mcp" name

abbrev and_then : Result String ToolSet → (ToolSet → Result String ToolSet) → Result String ToolSet
and_then (ok values) f = f values
and_then (err e) f = err e

-- add_built_ins; the names before one that throws stay added, in an object that the caller keeps
unfoldable pub add_built_ins : List String → ToolSet → Result String ToolSet
unfolding add_built_in
add_built_ins [] values = ok values
add_built_ins (name ∷ names) values = and_then (add_built_in name values) (add_built_ins names)
