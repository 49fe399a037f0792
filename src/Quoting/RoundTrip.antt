-- ===== src/Quoting/RoundTrip.antt =====
-- src/process_win32.cpp: `build_command_line`, and a reader of command lines.
use copilot_cpp.Prelude.{
  ℕ, zero, suc, ◌+◌, ◌*◌, ◌≡◌, refl, ap, ◌∙◌, Bool, true, false, ◌||◌, List, [], ◌∷◌, ◌++◌,
  append_assoc, append-nil, replicate, ◌==◌, if◌then◌else◌, Bool-cases, inl, inr, arith, ==_iff,
  length,
}
use copilot_cpp.Prelude.Text.{Bytes}
use copilot_cpp.Quoting.{
  member, special, has_special, needs_quotes, escape, quote_argument, append_arguments,
  build_command_line,
}
use copilot_cpp.Quoting.Splitting.{
  prepend, parse_argument, parse_quote_even, parse_quote_odd, parse_inside, parse_outside,
  parse_slash, parse_front, parse_boundary, IsBoundary, behind, put_first, split_line,
}

escape_other :
    (n c : ℕ) (s : Bytes)
    → (c == b'"') ≡ false
    → (c == b'\\') ≡ false
    → escape n (c ∷ s) ≡ replicate n b'\\' ++ c ∷ escape 0 s
unfolding escape
escape_other n c s e f = rw (escape, e, f) refl

escape_slash :
    (n c : ℕ) (s : Bytes)
    → (c == b'"') ≡ false
    → (c == b'\\') ≡ true
    → escape n (c ∷ s) ≡ escape (suc n) s
unfolding escape
escape_slash n c s e f = rw (escape, e, f) (ap (λ m. escape m s) (omega arith))

escape_quote :
    (n c : ℕ) (s : Bytes)
    → (c == b'"') ≡ true
    → escape n (c ∷ s) ≡ replicate (n * 2) b'\\' ++ b'\\' ∷ b'"' ∷ escape 0 s
unfolding escape
escape_quote n c s e = rw (escape, e) refl

replicate_next : (n : ℕ) (s : Bytes) → replicate (suc n) b'\\' ++ s ≡ replicate n b'\\' ++ b'\\' ∷ s
replicate_next zero s = refl
replicate_next (suc n) s = ap (◌∷◌ b'\\') (replicate_next n s)

prepend_snoc :
    (a s : Bytes) (c : ℕ) (x : Bytes × Bytes)
    → prepend (a ++ c ∷ []) (prepend s x) ≡ prepend (a ++ c ∷ s) x
prepend_snoc a s c x =
    let e : (a ++ c ∷ []) ++ (s ++ x.0) ≡ (a ++ c ∷ s) ++ x.0 = simp append_assoc in
    ap (λ l. (l, x.1)) e

escape_nil : (n : ℕ) → escape n [] ≡ replicate (n * 2) b'\\'
unfolding escape
escape_nil n = refl

-- What comes behind the closing quote.
abbrev closing : Bytes → Bytes
closing rest = b'"' ∷ rest

parse-escape :
    (n : ℕ) (s rest : Bytes)
    → parse_argument true 0 (escape n s ++ closing rest)
      ≡ prepend (replicate n b'\\' ++ s) (parse_argument false 0 rest)
parse-escape n [] rest =
    rw
      (
        escape_nil n,
        parse_front true (n * 2) (closing rest),
        parse_quote_even true n rest,
        append-nil,
      )
      refl
parse-escape n (c ∷ s) rest = elim (Bool-cases (c == b'"')) [
  | inl e ↦
      (let is : c ≡ b'"' = omega (arith, (==_iff c b'"').0 e) in
        rw
          (
            escape_quote n c s e,
            append_assoc,
            parse_front true (n * 2) (b'\\' ∷ b'"' ∷ escape 0 s ++ closing rest),
            parse_slash true (n * 2) (b'"' ∷ escape 0 s ++ closing rest),
            parse_quote_odd true n (escape 0 s ++ closing rest),
            parse-escape 0 s rest,
            is,
          )
          (prepend_snoc (replicate n b'\\') s b'"' (parse_argument false 0 rest)))
  | inr e ↦ (elim (Bool-cases (c == b'\\')) [
    | inl f ↦
        (let is : c ≡ b'\\' = omega (arith, (==_iff c b'\\').0 f) in
          rw (escape_slash n c s e f, is)
            (parse-escape (suc n) s rest
              ∙ ap (λ l. prepend l (parse_argument false 0 rest)) (replicate_next n s)))
    | inr f ↦
        rw
          (
            escape_other n c s e f,
            append_assoc,
            parse_front true n (c ∷ escape 0 s ++ closing rest),
            parse_inside n c (escape 0 s ++ closing rest) e f,
            parse-escape 0 s rest,
          )
          (prepend_snoc (replicate n b'\\') s c (parse_argument false 0 rest))
  ])
]

not_special :
    (c : ℕ) → member c special ≡ false → ((c == b'"') ≡ false) × ((c == b' ' || c == 9) ≡ false)
not_special c h = ground (arith, h)

neither : (a b : Bool) → (if a then true else b) ≡ false → (a ≡ false) × (b ≡ false)
neither true b h = ground (arith, h)
neither false b h = (refl, h)

snoc_append : (a s : Bytes) (c : ℕ) → (a ++ c ∷ []) ++ s ≡ a ++ c ∷ s
snoc_append a s c = simp append_assoc

add_one : (n : ℕ) → n + 1 ≡ suc n
add_one n = omega arith

plain : (arg : Bytes) → needs_quotes arg ≡ false → has_special arg ≡ false
unfolding needs_quotes
plain [] h = refl
plain (c ∷ s) h = h

parse_plain :
    (n : ℕ) (s rest : Bytes)
    → has_special s ≡ false
    → IsBoundary rest
    → parse_argument false n (s ++ rest) ≡ (replicate n b'\\' ++ s, behind rest)
parse_plain n [] rest h b = rw append-nil (parse_boundary n rest b)
parse_plain n (c ∷ s) rest h b =
    let (m, h') = neither (member c special) (has_special s) h in
    let (e, g) = not_special c m in
    elim (Bool-cases (c == b'\\')) [
      | inl f ↦
          (let is : c ≡ b'\\' = omega (arith, (==_iff c b'\\').0 f) in
            rw (is, parse_slash false n (s ++ rest))
              (ap (λ k. parse_argument false k (s ++ rest)) (add_one n)
                ∙ parse_plain (suc n) s rest h' b
                ∙ ap (λ l. (l, behind rest)) (replicate_next n s)))
      | inr f ↦
          rw (parse_outside n c (s ++ rest) e f g, parse_plain 0 s rest h' b)
            (ap (λ l. (l, behind rest)) (snoc_append (replicate n b'\\') s c))
    ]

-- An argument that is quoted is read back.
parse-quote_argument :
    (arg rest : Bytes)
    → IsBoundary rest
    → parse_argument false 0 (quote_argument arg ++ rest) ≡ (arg, behind rest)
unfolding quote_argument
parse-quote_argument arg rest b = elim (Bool-cases (needs_quotes arg)) [
  | inl e ↦
      rw
        (
          e,
          append_assoc,
          parse_quote_even false 0 _,
          parse-escape 0 arg rest,
          parse_boundary 0 rest b,
          append-nil,
        )
        refl
  | inr e ↦ rw (e, quote_argument) (parse_plain 0 arg rest (plain arg e) b)
]

append_arguments-IsBoundary : (args : List Bytes) → IsBoundary (append_arguments args)
unfolding append_arguments
append_arguments-IsBoundary [] = tt
append_arguments-IsBoundary (arg ∷ args) = refl

split_step :
    (n : ℕ) (line arg rest : Bytes)
    → parse_argument false 0 line ≡ (arg, rest)
    → split_line (suc n) line ≡ put_first arg (split_line n rest)
unfolding split_line
split_step n line arg rest h = rw (h, split_line) refl

split_none : (first : Bytes) → put_first first (split_line 0 []) ≡ (first ∷ [], [])
unfolding split_line
split_none first = refl

split_arguments :
    (first : Bytes) (args : List Bytes)
    → split_line (suc (length args)) (quote_argument first ++ append_arguments args)
      ≡ (first ∷ args, [])
unfolding append_arguments
split_arguments first [] =
    split_step 0 (quote_argument first ++ []) first [] (parse-quote_argument first [] tt)
    ∙ split_none first
split_arguments first (arg ∷ args) =
    let rest = quote_argument arg ++ append_arguments args in
    split_step (suc (length args)) (quote_argument first ++ b' ' ∷ rest) first rest
      (parse-quote_argument first (b' ' ∷ rest) refl)
    ∙ ap (put_first first) (split_arguments arg args)

-- The executable and the arguments of a command line are read back from it, one by one and to its
-- end, whatever characters they hold, by the rules that Windows documents for arguments: the
-- executable is read by the same rules.
pub build_command_line-split :
    (executable : Bytes) (args : List Bytes)
    → split_line (suc (length args)) (build_command_line executable args) ≡ (executable ∷ args, [])
unfolding build_command_line
build_command_line-split executable args = split_arguments executable args
