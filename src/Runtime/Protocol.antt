-- ===== src/Runtime/Protocol.antt =====
-- src/client.cpp: `verify_protocol_version`.
use copilot_cpp.Prelude.{
  Bool, false, ◌&&◌, ◌||◌, Option, none, some, String, [], ◌∷◌, leb, if◌then◌else◌,
}
use copilot_cpp.Prelude.Text.{str_eq}
use copilot_cpp.Prelude.Int.{ℤ, pos, negsuc, equal_ℤ}
use copilot_cpp.Prelude.Exec.{Result, ok, err, pure, raise, modify, ◌>>=◌}
use copilot_cpp.Json.{Json}
use copilot_cpp.Rpc.Message.{code_value, method_not_found}
use copilot_cpp.Rpc.Client.{RpcError}
use copilot_cpp.Runtime.{Failure, rpc_failure, exception, World, Extras, Io, call}

-- `kMinProtocolVersion` is 2 and `kSdkProtocolVersion` is 3
abbrev pub in_range : ℤ → Bool
in_range (negsuc n) = false
in_range (pos n) = leb 2 n && leb n 3

module _ (J : Json) where
  open J use {Value, null, object, is_null, is_string, get_int, get_string, contains, at}

  -- the handshake is unknown to the server
  abbrev pub is_unknown_method : RpcError J → Bool
  is_unknown_method e =
      equal_ℤ e.code (code_value method_not_found) || str_eq e.message "Unhandled method connect"

  -- the value of a member that is there and not null
  abbrev pub member : Value → String → Option Value
  member v key = elim (at v key) [ none ↦ none | some w ↦ (if is_null w then none else some w) ]

  abbrev pub text_member : Value → String → Option String
  text_member v key = elim (at v key) [ none ↦ none | some w ↦ get_string w ]

  module _ (W : World J) where
    -- `ping`
    unfoldable pub ping : Io J Value
    ping = call J W "ping" (object (("message", null) ∷ []))

    -- the `catch (const JsonRpcError&)` of the handshake
    unfoldable pub handshake_failed : Failure J → Io J Value
    unfolding ping
    handshake_failed (rpc_failure e) = if is_unknown_method e then ping else raise (rpc_failure e)
    handshake_failed (exception what) = raise (exception what)

    unfoldable pub recover : Result (Failure J) Value → Io J Value
    unfolding handshake_failed
    recover (ok response) = pure response
    recover (err e) = handshake_failed e

    -- the handshake: `connect`, or `ping` where the server does not know it
    unfoldable pub handshake : Extras J → Io J Value
    unfolding recover
    handshake x l = let (r, l') = call J W "connect" x.connect_params l in recover r l'

    -- a response that has no version is given up for a `ping`
    unfoldable pub or_ping : Value → Option Value → Io J Value
    unfolding ping
    or_ping response (some v) = pure response
    or_ping response none = ping

    unfoldable pub versioned : Value → Io J Value
    unfolding or_ping
    versioned response = or_ping response (member response "protocolVersion")

    unfoldable pub accept_version : Value → Option ℤ → Io J (Unit {0})
    accept_version response none = raise (exception "json::type_error")
    accept_version response (some v) =
        if in_range v
        then modify (λ l. record l {
          protocol_version = some v;
          server_version = elim (text_member response "version") [
            | none ↦ l.server_version
            | some s ↦ some s
          ];
        })
        else raise (exception "SDK protocol version mismatch")

    -- a version that is still missing is an exception
    unfoldable pub accept_reported : Value → Option Value → Io J (Unit {0})
    unfolding accept_version
    accept_reported response none =
        raise (exception "SDK protocol version mismatch: server does not report a protocol version")
    accept_reported response (some v) = accept_version response (get_int v)

    unfoldable pub check_version : Value → Io J (Unit {0})
    unfolding accept_reported
    check_version response = accept_reported response (member response "protocolVersion")

    -- verify_protocol_version; the texts of its exceptions are cut short
    unfoldable pub verify_protocol_version : Extras J → Io J (Unit {0})
    unfolding handshake versioned check_version
    verify_protocol_version x = do
      first ← handshake x
      response ← versioned first
      check_version response
