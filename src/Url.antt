-- ===== src/Url.antt =====
-- src/client.cpp: `Client::parse_cli_url` over bytes, with the regular expression that it compiles
-- written out as a matcher.
pub mod RoundTrip
use copilot_cpp.Prelude.{
  ℕ, ◌+◌, ◌^◌, Bool, true, false, ◌&&◌, ◌||◌, not, Option, none, some, [], ◌∷◌, ◌++◌, ltb, leb,
  ◌==◌, if◌then◌else◌, is_some, first_some,
}
use copilot_cpp.Prelude.Text.{Bytes, codes}
use copilot_cpp.Prelude.Exec.{Result, ok, err}
use copilot_cpp.Framing.Header.{is_digit, digits_value}

-- The exceptions: `std::invalid_argument` with its text, and the `std::out_of_range` of `std::stoi`.
pub data Fault : Type 0 where
  invalid_argument : Bytes → Fault
  out_of_range : Fault

-- `parsed_host_` and `parsed_port_`
pub record Address : Type 0 where
  pub host : Bytes
  pub port : ℕ

abbrev pub separator : Bytes
separator = codes "://"

abbrev pub https : Bytes
https = codes "https://"

abbrev pub http : Bytes
http = codes "http://"

-- what follows a prefix
unfoldable pub strip_prefix : Bytes → Bytes → Option Bytes
strip_prefix [] s = some s
strip_prefix (c ∷ p) [] = none
strip_prefix (c ∷ p) (d ∷ s) = let rest = strip_prefix p s in if c == d then rest else none

-- `find(p) != npos`
unfoldable pub occurs : Bytes → Bytes → Bool
unfolding strip_prefix
occurs p [] = is_some (strip_prefix p [])
occurs p (c ∷ s) = is_some (strip_prefix p (c ∷ s)) || occurs p s

unfoldable pub every_digit : Bytes → Bool
every_digit [] = true
every_digit (c ∷ s) = is_digit c && every_digit s

unfoldable pub all_digits : Bytes → Bool
unfolding every_digit
all_digits [] = false
all_digits (c ∷ s) = every_digit (c ∷ s)

-- `std::stoi` of digits
unfoldable pub stoi : Bytes → Result Fault ℕ
stoi s = if ltb (digits_value 0 s) (2 ^ 31) then ok (digits_value 0 s) else err out_of_range

abbrev pub cons_first : ℕ → Option (Bytes × Bytes) → Option (Bytes × Bytes)
cons_first c none = none
cons_first c (some (a, rest)) = some (c ∷ a, rest)

-- `[^\]]*\]`: the bytes before the first bracket that closes, and those behind it
unfoldable pub until_bracket : Bytes → Option (Bytes × Bytes)
until_bracket [] = none
until_bracket (c ∷ s) =
    let rest = cons_first c (until_bracket s) in if c == b']' then some ([], s) else rest

-- `[^:/]*`
unfoldable pub take_plain : Bytes → Bytes × Bytes
take_plain [] = ([], [])
take_plain (c ∷ s) =
    let (a, rest) = take_plain s in if c == b':' || c == b'/' then ([], c ∷ s) else (c ∷ a, rest)

-- `(?::(\d+))?` up to the end
unfoldable pub match_port : Bytes → Option (Option Bytes)
unfolding all_digits
match_port [] = some none
match_port (c ∷ s) = if c == b':' && all_digits s then some (some s) else none

abbrev pub with_port : Bytes → Option (Option Bytes) → Option (Bytes × Option Bytes)
with_port host none = none
with_port host (some port) = some (host, port)

-- the host `\[[^\]]+\]`, which is kept without its brackets
abbrev pub bracketed : Option (Bytes × Bytes) → Option (Bytes × Option Bytes)
bracketed none = none
bracketed (some ([], rest)) = none
bracketed (some (c ∷ a, rest)) = with_port (c ∷ a) (match_port rest)

-- the host `[^:/]+`; one that has brackets around it loses them too
abbrev pub last_is_bracket : Bytes → Option Bytes
last_is_bracket [] = none
last_is_bracket (c ∷ []) = if c == b']' then some [] else none
last_is_bracket (c ∷ d ∷ s) = elim (last_is_bracket (d ∷ s)) [ none ↦ none | some t ↦ some (c ∷ t) ]

abbrev pub or_whole : Bytes → Option Bytes → Bytes
or_whole host none = host
or_whole host (some bare) = bare

abbrev pub unbracket : Bytes → Bytes
unbracket [] = []
unbracket (c ∷ s) = if c == b'[' then or_whole (c ∷ s) (last_is_bracket s) else c ∷ s

abbrev pub plain : Bytes × Bytes → Option (Bytes × Option Bytes)
plain ([], rest) = none
plain (c ∷ a, rest) = with_port (unbracket (c ∷ a)) (match_port rest)

abbrev pub try_bracket : Bytes → Option (Bytes × Option Bytes)
try_bracket [] = none
try_bracket (c ∷ s) = if c == b'[' then bracketed (until_bracket s) else none

-- the part behind the scheme
unfoldable pub match_host : Bytes → Option (Bytes × Option Bytes)
unfolding until_bracket take_plain match_port
match_host s = first_some (try_bracket s) (plain (take_plain s))

abbrev pub match_after : Option Bytes → Option (Bytes × Option Bytes)
match_after none = none
match_after (some s) = match_host s

-- `std::regex_match`
unfoldable pub match_url : Bytes → Option (Bytes × Option Bytes)
unfolding match_host
match_url s =
    first_some (match_after (strip_prefix https s))
      (first_some (match_after (strip_prefix http s)) (match_host s))

abbrev pub with_scheme : Bytes → Bytes
with_scheme url = if occurs separator url then url else https ++ url

abbrev pub port_or_default : Bytes → Option Bytes → Result Fault ℕ
port_or_default url none = ok (if is_some (strip_prefix https url) then 443 else 80)
port_or_default url (some digits) = stoi digits

abbrev pub at_port : Bytes → Result Fault ℕ → Result Fault Address
at_port host (ok n) = ok (record { host = host; port = n })
at_port host (err e) = err e

abbrev pub matched : Bytes → Bytes → Option (Bytes × Option Bytes) → Result Fault Address
matched url whole none = err (invalid_argument (codes "Invalid CLI URL: " ++ url))
matched url whole (some (host, port)) = at_port host (port_or_default whole port)

unfoldable pub parse_host : Bytes → Result Fault Address
unfolding match_url occurs stoi
parse_host url = matched url (with_scheme url) (match_url (with_scheme url))

-- a port number alone, if it is one
abbrev pub local_port : Bytes → Result Fault ℕ → Result Fault Address
local_port url (ok n) =
    if ltb 0 n && leb n 65535
    then ok (record { host = codes "localhost"; port = n })
    else parse_host url
local_port url (err e) = parse_host url

-- parse_cli_url
unfoldable pub parse_cli_url : Bytes → Result Fault Address
unfolding parse_host
parse_cli_url url = if all_digits url then local_port url (stoi url) else parse_host url
