-- ===== src/Tests/Addresses.antt =====
-- src/client.cpp: URLs of a runtime.
use copilot_cpp.Prelude.{◌≡◌, ◌∷◌, ◌++◌, arith}
use copilot_cpp.Prelude.Text.{codes}
use copilot_cpp.Prelude.Exec.{ok}
use copilot_cpp.Framing.Header.{to_string}
use copilot_cpp.Url.{parse_cli_url}
use copilot_cpp.Url.RoundTrip.{ipv6, http_scheme, scheme_text, written, parse_cli_url-written}

parse_cli_url-written_example :
    parse_cli_url
      (scheme_text http_scheme ++ (written (ipv6 (codes "::1")) ++ b':' ∷ to_string 4000))
    ≡ ok (record { host = codes "::1"; port = 4000 })
parse_cli_url-written_example =
    parse_cli_url-written (ipv6 (codes "::1")) 4000 (omega arith) (omega arith) http_scheme
