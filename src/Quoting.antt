-- ===== src/Quoting.antt =====
-- src/process_win32.cpp: the command line of a child process on Windows.
pub mod Splitting
pub mod RoundTrip
use copilot_cpp.Prelude.{
  ℕ, ◌+◌, ◌*◌, Bool, true, false, ◌||◌, List, [], ◌∷◌, ◌++◌, replicate, ◌==◌, if◌then◌else◌,
}
use copilot_cpp.Prelude.Text.{Bytes, codes}

abbrev pub member : ℕ → Bytes → Bool
member c [] = false
member c (d ∷ ds) = c == d || member c ds

-- the characters for which quote_argument quotes
abbrev pub special : Bytes
special = codes " \t\"&|<>^%!(){}[];,="

abbrev pub has_special : Bytes → Bool
has_special [] = false
has_special (c ∷ s) = let rest = has_special s in if member c special then true else rest

unfoldable pub needs_quotes : Bytes → Bool
needs_quotes [] = true
needs_quotes (c ∷ s) = has_special (c ∷ s)

-- quote_argument: the loop, with the number of backslashes of the run that it is in. A run is
-- doubled before a quote and at the end.
unfoldable pub escape : ℕ → Bytes → Bytes
escape n [] = replicate (n * 2) b'\\'
escape n (c ∷ s) =
    let more = escape (n + 1) s in
    let next = escape 0 s in
    if c == b'"'
    then replicate (n * 2) b'\\' ++ b'\\' ∷ b'"' ∷ next
    else if c == b'\\'
    then more
    else replicate n b'\\' ++ c ∷ next

unfoldable pub quote_argument : Bytes → Bytes
unfolding needs_quotes escape
quote_argument arg = if needs_quotes arg then b'"' ∷ escape 0 arg ++ b'"' ∷ [] else arg

-- build_command_line: the arguments behind the executable
unfoldable pub append_arguments : List Bytes → Bytes
unfolding quote_argument
append_arguments [] = []
append_arguments (arg ∷ args) = b' ' ∷ quote_argument arg ++ append_arguments args

unfoldable pub build_command_line : Bytes → List Bytes → Bytes
unfolding append_arguments
build_command_line executable args = quote_argument executable ++ append_arguments args
