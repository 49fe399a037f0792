-- ===== src/Quoting/Splitting.antt =====
-- src/process_win32.cpp: a command line, split by the rules that Windows documents.
use copilot_cpp.Prelude.{
  ℕ, zero, suc, ◌+◌, ◌*◌, ◌/◌, ◌%◌, ◌≡◌, refl, ap, ◌∙◌, Bool, true, false, not, ◌||◌, ◌&&◌, List,
  [], ◌∷◌, ◌++◌, replicate, ◌==◌, if◌then◌else◌, arith,
}
use copilot_cpp.Prelude.Text.{Bytes}

abbrev pub prepend : Bytes → Bytes × Bytes → Bytes × Bytes
prepend bs (arg, rest) = (bs ++ arg, rest)

-- One argument: whether a quoted part is open, and the backslashes of the run before. A quote after
-- an even number of backslashes opens or closes a quoted part, after an odd number it stands for
-- itself, and half of the backslashes stay; elsewhere backslashes stand for themselves. A blank
-- outside of quotes ends the argument.
unfoldable pub parse_argument : Bool → ℕ → Bytes → Bytes × Bytes
parse_argument q n [] = (replicate n b'\\', [])
parse_argument q n (c ∷ s) =
    let more = parse_argument q (n + 1) s in
    let toggled = parse_argument (not q) 0 s in
    let same = parse_argument q 0 s in
    if c == b'\\'
    then more
    else if c == b'"'
    then (if n % 2 == 0
        then prepend (replicate (n / 2) b'\\') toggled
        else prepend (replicate (n / 2) b'\\' ++ b'"' ∷ []) same)
    else if not q && (c == b' ' || c == 9)
    then (replicate n b'\\', s)
    else prepend (replicate n b'\\' ++ c ∷ []) same

pub parse_run :
    (q : Bool) (n k : ℕ) (s : Bytes)
    → parse_argument q n (replicate k b'\\' ++ s) ≡ parse_argument q (n + k) s
unfolding parse_argument
parse_run q n zero s = ap (λ m. parse_argument q m s) (omega arith)
parse_run q n (suc k) s = parse_run q (n + 1) k s ∙ ap (λ m. parse_argument q m s) (omega arith)

pub parse_quote_even :
    (q : Bool) (n : ℕ) (s : Bytes)
    → parse_argument q (n * 2) (b'"' ∷ s) ≡ prepend (replicate n b'\\') (parse_argument (not q) 0 s)
unfolding parse_argument
parse_quote_even q n s =
    let e : (n * 2 % 2 == 0) ≡ true = ground arith in
    let h : n * 2 / 2 ≡ n = omega arith in rw (e, h) refl

pub parse_quote_odd :
    (q : Bool) (n : ℕ) (s : Bytes)
    → parse_argument q (n * 2 + 1) (b'"' ∷ s)
      ≡ prepend (replicate n b'\\' ++ b'"' ∷ []) (parse_argument q 0 s)
unfolding parse_argument
parse_quote_odd q n s =
    let e : ((n * 2 + 1) % 2 == 0) ≡ false = ground arith in
    let h : (n * 2 + 1) / 2 ≡ n = omega arith in rw (e, h) refl

pub parse_inside :
    (n c : ℕ) (s : Bytes)
    → (c == b'"') ≡ false
    → (c == b'\\') ≡ false
    → parse_argument true n (c ∷ s)
      ≡ prepend (replicate n b'\\' ++ c ∷ []) (parse_argument true 0 s)
unfolding parse_argument
parse_inside n c s e f = rw (parse_argument, e, f) refl

pub parse_outside :
    (n c : ℕ) (s : Bytes)
    → (c == b'"') ≡ false
    → (c == b'\\') ≡ false
    → (c == b' ' || c == 9) ≡ false
    → parse_argument false n (c ∷ s)
      ≡ prepend (replicate n b'\\' ++ c ∷ []) (parse_argument false 0 s)
unfolding parse_argument
parse_outside n c s e f g = rw (parse_argument, e, f, g) refl

pub parse_slash :
    (q : Bool) (n : ℕ) (s : Bytes) → parse_argument q n (b'\\' ∷ s) ≡ parse_argument q (n + 1) s
unfolding parse_argument
parse_slash q n s = refl

pub parse_front :
    (q : Bool) (k : ℕ) (s : Bytes)
    → parse_argument q 0 (replicate k b'\\' ++ s) ≡ parse_argument q k s
parse_front q k s = parse_run q 0 k s ∙ ap (λ m. parse_argument q m s) (omega arith)

-- The end of an argument: the end of the line, or a blank, which is read with it.
abbrev pub IsBoundary : Bytes → Type 0
IsBoundary [] = Unit
IsBoundary (c ∷ s) = c ≡ b' '

abbrev pub behind : Bytes → Bytes
behind [] = []
behind (c ∷ s) = s

pub parse_boundary :
    (n : ℕ) (rest : Bytes)
    → IsBoundary rest
    → parse_argument false n rest ≡ (replicate n b'\\', behind rest)
unfolding parse_argument
parse_boundary n [] h = refl
parse_boundary n (c ∷ s) h = rw h refl

abbrev pub put_first : Bytes → List Bytes × Bytes → List Bytes × Bytes
put_first arg (args, left) = (arg ∷ args, left)

-- So many arguments of a line, and what is left of it.
unfoldable pub split_line : ℕ → Bytes → List Bytes × Bytes
unfolding parse_argument
split_line zero line = ([], line)
split_line (suc n) line =
    let (arg, rest) = parse_argument false 0 line in put_first arg (split_line n rest)
