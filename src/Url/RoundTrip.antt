-- ===== src/Url/RoundTrip.antt =====
-- src/client.cpp: `Client::parse_cli_url` on a URL that names a host and a port.
use mathlib.Core.Path.{subst}
use copilot_cpp.Prelude.{
  ℕ, ◌^◌, ◌<◌, ◌≡◌, ◌≢◌, refl, ap, ◌∙◌, Bool, true, false, Option, none, some, [], ◌∷◌, ◌++◌,
  append_assoc, ltb, ◌==◌, if◌then◌else◌, is_some, Bool-cases, inl, inr, All, All-append, arith,
}
use copilot_cpp.Prelude.Text.{Bytes}
use copilot_cpp.Prelude.Exec.{ok}
use copilot_cpp.Framing.Header.{is_digit, to_string}
use copilot_cpp.Framing.Header.Decimal.{
  IsDigits, to_string-IsDigits, is_digit_of, Digits, digits, to_string-Digits,
  digits_value-to_string,
}
use copilot_cpp.Url.{
  separator, https, http, strip_prefix, occurs, every_digit, all_digits, stoi, until_bracket,
  take_plain, match_port, match_host, match_url, matched, parse_host, parse_cli_url,
}

-- A host as a URL writes it: a name or an address of four numbers, or an IPv6 address.
pub data Host : Type 0 where
  named ipv6 : Bytes → Host

abbrev pub bare : Host → Bytes
bare (named h) = h
bare (ipv6 a) = a

abbrev pub written : Host → Bytes
written (named h) = h
written (ipv6 a) = 91 ∷ (a ++ 93 ∷ [])

-- Not empty; a name has no colon and no slash and does not start with a bracket, an IPv6 address has
-- no slash and no closing bracket.
abbrev pub IsHost : Host → Type 0
IsHost (named []) = ⊥
IsHost (named (c ∷ h)) = (c ≢ 91) × All (λ d. (d ≢ 58) × (d ≢ 47)) (c ∷ h)
IsHost (ipv6 []) = ⊥
IsHost (ipv6 (c ∷ a)) = All (λ d. (d ≢ 93) × (d ≢ 47)) (c ∷ a)

pub data Scheme : Type 0 where
  no_scheme http_scheme https_scheme : Scheme

abbrev pub scheme_text : Scheme → Bytes
scheme_text no_scheme = []
scheme_text http_scheme = http
scheme_text https_scheme = https

every_digit-IsDigits : (s : Bytes) → IsDigits s → every_digit s ≡ true
unfolding every_digit
every_digit-IsDigits [] h = refl
every_digit-IsDigits (c ∷ s) ((l, u), h) = rw (is_digit_of c l u) (every_digit-IsDigits s h)

all_digits-to_string : (n : ℕ) → all_digits (to_string n) ≡ true
unfolding all_digits
all_digits-to_string n = of_digits (to_string n) (to_string-Digits n) (to_string-IsDigits n)
  where
    of_digits : (s : Bytes) → Digits s → IsDigits s → all_digits s ≡ true
    of_digits s (digits c t e l u) h = rw e (every_digit-IsDigits (c ∷ t) (subst IsDigits e h))

match_port-to_string : (n : ℕ) → match_port (58 ∷ to_string n) ≡ some (some (to_string n))
unfolding match_port
match_port-to_string n = rw (all_digits-to_string n) refl

take_plain_lem :
    (h rest : Bytes)
    → All (λ d. (d ≢ 58) × (d ≢ 47)) h
    → take_plain (h ++ 58 ∷ rest) ≡ (h, 58 ∷ rest)
unfolding take_plain
take_plain_lem [] rest all = refl
take_plain_lem (c ∷ h) rest ((p, q), all) =
    let e : (c == 58) ≡ false = ground (arith, p) in
    let f : (c == 47) ≡ false = ground (arith, q) in rw (e, f, take_plain_lem h rest all) refl

until_bracket_lem :
    (a rest : Bytes)
    → All (λ d. (d ≢ 93) × (d ≢ 47)) a
    → until_bracket (a ++ 93 ∷ rest) ≡ some (a, rest)
unfolding until_bracket
until_bracket_lem [] rest all = refl
until_bracket_lem (c ∷ a) rest ((p, q), all) =
    let e : (c == 93) ≡ false = ground (arith, p) in rw (e, until_bracket_lem a rest all) refl

match_host_lem :
    (h : Host) (n : ℕ)
    → IsHost h
    → match_host (written h ++ 58 ∷ to_string n) ≡ some (bare h, some (to_string n))
unfolding match_host
match_host_lem (named []) n h = absurd h
match_host_lem (named (c ∷ a)) n (p, all) =
    let e : (c == 91) ≡ false = ground (arith, p) in
    rw (e, take_plain_lem (c ∷ a) (to_string n) all, match_port-to_string n, e) refl
match_host_lem (ipv6 []) n h = absurd h
match_host_lem (ipv6 (c ∷ a)) n all =
    let e : until_bracket (((c ∷ a) ++ 93 ∷ []) ++ 58 ∷ to_string n)
        ≡ some (c ∷ a, 58 ∷ to_string n) =
      ap until_bracket (append_assoc (c ∷ a) (93 ∷ []) (58 ∷ to_string n))
      ∙ until_bracket_lem (c ∷ a) (58 ∷ to_string n) all in
    rw (e, match_port-to_string n) refl

stoi-to_string : (n : ℕ) → n < 2 ^ 31 → stoi (to_string n) ≡ ok n
unfolding stoi
stoi-to_string n h =
    let e : ltb n (2 ^ 31) ≡ true = ground arith in rw (digits_value-to_string n, e) refl

strip_separator : (s : Bytes) → All (λ c. c ≢ 47) s → is_some (strip_prefix separator s) ≡ false
unfolding strip_prefix
strip_separator [] h = refl
strip_separator (a ∷ []) h = ground arith
strip_separator (a ∷ b ∷ s) (p, (q, h)) =
    let e : (47 == b) ≡ false = ground (arith, q) in by_first _ (58 == a) (rw e refl)
  where
    by_first :
        (o : Option Bytes) (t : Bool) → is_some o ≡ false → is_some (if t then o else none) ≡ false
    by_first o true e = e
    by_first o false e = refl

occurs-no_slash : (s : Bytes) → All (λ c. c ≢ 47) s → occurs separator s ≡ false
unfolding occurs
occurs-no_slash [] h = refl
occurs-no_slash (c ∷ s) (p, h) = rw (strip_separator (c ∷ s) (p, h), occurs-no_slash s h) refl

no_slash-digits : (s : Bytes) → IsDigits s → All (λ c. c ≢ 47) s
no_slash-digits [] h = tt
no_slash-digits (c ∷ s) (p, h) = (omega (arith, p), no_slash-digits s h)

no_slash-plain : (s : Bytes) → All (λ d. (d ≢ 58) × (d ≢ 47)) s → All (λ c. c ≢ 47) s
no_slash-plain [] h = tt
no_slash-plain (c ∷ s) ((p, q), h) = (q, no_slash-plain s h)

no_slash-ipv6 : (s : Bytes) → All (λ d. (d ≢ 93) × (d ≢ 47)) s → All (λ c. c ≢ 47) s
no_slash-ipv6 [] h = tt
no_slash-ipv6 (c ∷ s) ((p, q), h) = (q, no_slash-ipv6 s h)

no_slash-written : (h : Host) → IsHost h → All (λ c. c ≢ 47) (written h)
no_slash-written (named []) h = absurd h
no_slash-written (named (c ∷ a)) (p, all) = no_slash-plain (c ∷ a) all
no_slash-written (ipv6 []) h = absurd h
no_slash-written (ipv6 (c ∷ a)) all = (
  omega arith,
  All-append (λ c. c ≢ 47) (c ∷ a) (93 ∷ []) (no_slash-ipv6 (c ∷ a) all) (omega arith, tt),
)

every_digit-colon : (a r : Bytes) → every_digit (a ++ 58 ∷ r) ≡ false
unfolding every_digit is_digit
every_digit-colon [] r = refl
every_digit-colon (c ∷ a) r = elim (Bool-cases (is_digit c)) [
  | inl e ↦ rw e (every_digit-colon a r)
  | inr e ↦ rw e refl
]

all_digits-colon : (a r : Bytes) → all_digits (a ++ 58 ∷ r) ≡ false
unfolding all_digits
all_digits-colon [] r = every_digit-colon [] r
all_digits-colon (c ∷ a) r = every_digit-colon (c ∷ a) r

-- what the matcher and the port give, put together
matched_lem :
    (url whole : Bytes) (h : Host) (n : ℕ)
    → n < 2 ^ 31
    → match_url whole ≡ some (bare h, some (to_string n))
    → matched url whole (match_url whole) ≡ ok (record { host = bare h; port = n })
matched_lem url whole h n small e = rw (e, stoi-to_string n small) refl

module _ (h : Host) (n : ℕ) (fine : IsHost h) (small : n < 2 ^ 31) where
  abbrev authority : Bytes
  authority = written h ++ 58 ∷ to_string n

  match_url-https : match_url (https ++ authority) ≡ some (bare h, some (to_string n))
  unfolding match_url strip_prefix
  match_url-https = rw (match_host_lem h n fine) refl

  match_url-http : match_url (http ++ authority) ≡ some (bare h, some (to_string n))
  unfolding match_url strip_prefix
  match_url-http = rw (match_host_lem h n fine) refl

  no_separator : occurs separator authority ≡ false
  no_separator = occurs-no_slash authority (
      All-append (λ c. c ≢ 47) (written h) (58 ∷ to_string n) (no_slash-written h fine)
        (omega arith, no_slash-digits (to_string n) (to_string-IsDigits n)))

  -- A URL with a host and a port is read as that host and that port, with `http://` or `https://` in
  -- front or neither; an IPv6 address, which the URL has in brackets, is given without them. The port
  -- is any number below 2 ^ 31.
  pub parse_cli_url-written :
      (scheme : Scheme)
      → parse_cli_url (scheme_text scheme ++ (written h ++ 58 ∷ to_string n))
        ≡ ok (record { host = bare h; port = n })
  unfolding parse_cli_url parse_host occurs strip_prefix all_digits every_digit is_digit
  parse_cli_url-written no_scheme =
      rw (all_digits-colon (written h) (to_string n), no_separator)
        (matched_lem authority (https ++ authority) h n small match_url-https)
  parse_cli_url-written http_scheme =
      matched_lem (http ++ authority) (http ++ authority) h n small match_url-http
  parse_cli_url-written https_scheme =
      matched_lem (https ++ authority) (https ++ authority) h n small match_url-https
