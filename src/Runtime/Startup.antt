-- ===== src/Runtime/Startup.antt =====
-- src/client.cpp: `start`.
use copilot_cpp.Prelude.{Bool, true, false, Option, none, some, String, [], is_some, if◌then◌else◌}
use copilot_cpp.Prelude.Exec.{Result, ok, err, pure, modify, ◌>>=◌, ◌>>◌}
use copilot_cpp.Json.{Json}
use copilot_cpp.Launch.{Options}
use copilot_cpp.Runtime.{
  ConnectionState, connecting, connected, error, Failure, World, Link, Extras, Io, call,
  start_in_process_runtime, start_cli_server, connect_to_server, kind_is, is_parent, is_in_process,
}
use copilot_cpp.Runtime.Protocol.{verify_protocol_version}

-- how a runtime is reached: it is loaded, is there already, or is started
pub data Way : Type 0 where
  loads attaches starts : Way

-- start: is the runtime in this process, is it the parent, is its address known?
unfoldable pub way : Bool → Bool → Bool → Way
way true parent known = loads
way false true known = attaches
way false false true = attaches
way false false false = starts

module _ (J : Json) where
  open J use {Value, object}

  module _ (W : World J) where
    -- `rpc_->invoke(…).get()`, whose result is dropped
    unfoldable pub tell : String → Option Value → Io J (Unit {0})
    tell method none = pure tt
    tell method (some params) = call J W method params >>= λ _. pure tt

    -- start: the runtime is loaded or spawned, or another one is there
    unfoldable pub reach_by : Way → Options → Extras J → Io J (Unit {0})
    reach_by loads o x = start_in_process_runtime J W >>= λ _. connect_to_server J W o x
    reach_by attaches o x = connect_to_server J W o x
    reach_by starts o x = start_cli_server J W o >>= λ _. connect_to_server J W o x

    unfoldable pub reach_runtime : Options → Extras J → Io J (Unit {0})
    unfolding reach_by
    reach_runtime o x l =
        reach_by (way (kind_is is_in_process o) (kind_is is_parent o) (is_some l.parsed)) o x l

    -- start: what is told to the runtime at the beginning
    unfoldable pub introduce : Extras J → Io J (Unit {0})
    unfolding tell
    introduce x l =
        let provider = if l.bridge then some (object []) else none in
        (do
          tell "llmInference.setProvider" provider
          tell "plugins.builtin.set" x.plugin_paths
          tell "sessionFs.setProvider" x.session_fs)
          l

    abbrev pub set_state : ConnectionState → Io J (Unit {0})
    set_state s = modify (λ l. record l { state = s })

    -- start: the body of the `try`
    unfoldable pub establish : Options → Extras J → Io J (Unit {0})
    unfolding reach_runtime introduce
    establish o x = do
      reach_runtime o x
      verify_protocol_version J W x
      introduce x
      set_state connected

    -- start: the `catch (...)`
    unfoldable pub or_error :
        Result (Failure J) (Unit {0}) × Link J → Result (Failure J) (Unit {0}) × Link J
    or_error (ok u, l) = (ok u, l)
    or_error (err e, l) = (err e, record l { state = error })

    abbrev pub is_connected : ConnectionState → Bool
    is_connected connected = true
    is_connected _ = false

    unfoldable pub start : Options → Extras J → Io J (Unit {0})
    unfolding establish or_error
    start o x l =
        if is_connected l.state
        then (ok tt, l)
        else or_error (establish o x (record l { state = connecting }))
