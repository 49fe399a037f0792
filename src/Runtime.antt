-- ===== src/Runtime.antt =====
-- src/client.cpp: the connection of a client to its runtime. What the operating system and the peer
-- do is a parameter, `World`; every method is an action on the client's fields that may throw.
pub mod Protocol
pub mod Startup
pub mod Shutdown
pub mod Frames
pub mod Outcomes
pub mod Restart
use Prim.Native.String.{◌++◌ as str_append}
use copilot_cpp.Prelude.{
  ℕ, ◌+◌, Bool, true, false, not, ◌&&◌, ◌||◌, Option, none, some, String, List, [], ◌∷◌, ◌++◌,
  if◌then◌else◌, is_some,
}
use copilot_cpp.Prelude.Text.{str_eq}
use copilot_cpp.Prelude.Int.{ℤ, pos, negsuc, equal_ℤ}
use copilot_cpp.Prelude.Exec.{Result, ok, err, Exec, pure, raise, lift, gets, modify, ◌>>=◌, ◌>>◌}
use copilot_cpp.Json.{Json}
use copilot_cpp.Rpc.Message.{code_value, method_not_found}
use copilot_cpp.Rpc.Client.{RpcError}
use copilot_cpp.Launch.{Options, ConnectionKind, stdio, tcp, uri, in_process, parent_process}
use copilot_cpp.Launch.Environment.{of_connection}

-- `ConnectionState`
pub data ConnectionState : Type 0 where
  disconnected connecting connected error : ConnectionState

-- What is done to the outside, in order. `tcp_connects` has the host and the port.
pub data Action : Type 0 where
  loads_runtime spawns : Action
  opens_parent opens_pipes : Action
  tcp_connects : String → ℤ → Action
  calls : String → Action
  destroys : String → Action
  cancels_tools : String → Action
  cancels_bridge terminates kills stops_rpc closes_transport : Action

-- the kind of a transport
pub data Transport : Type 0 where
  ffi parent_streams pipes : Transport
  socket : String → ℤ → Transport

abbrev pub is_parent : ConnectionKind → Bool
is_parent parent_process = true
is_parent _ = false

abbrev pub is_in_process : ConnectionKind → Bool
is_in_process in_process = true
is_in_process _ = false

abbrev pub kind_is : (ConnectionKind → Bool) → Options → Bool
kind_is p o = elim o.connection [ none ↦ false | some c ↦ p c.kind ]

module _ (J : Json) where
  open J use {Value, null, text, object, is_null, get_int, contains, at}

  -- What a method throws: a `JsonRpcError`, or another exception with its text.
  pub data Failure : Type 0 where
    rpc_failure : RpcError J → Failure
    exception : String → Failure

  -- The outside. `answer` is what the n-th call of the connection comes to; `announcement` is the
  -- port that a spawned runtime prints, or the exception of the wait for it.
  pub record World : Type 0 where
    pub load : Option String
    pub spawn : Option String
    pub announcement : Result String ℤ
    pub tcp_connect : String → ℤ → Option String
    pub answer : ℕ → String → Value → Result Failure Value
    pub destroy : String → Option String

  -- The fields of `Client` that the connection uses. Sessions are named by their ids.
  pub record Link : Type 0 where
    pub state : ConnectionState
    pub parsed : Option (String × ℤ)
    pub process : Bool
    pub transport : Option Transport
    pub rpc : Option Transport
    pub bridge : Bool
    pub models_cache : Bool
    pub sessions : List String
    pub protocol_version : Option ℤ
    pub server_version : Option String
    pub calls_made : ℕ
    pub actions : List Action

  -- The options that are read beside `Options`: is there a request handler, plugin directories, the
  -- session file system's parameters, the parameters of the handshake.
  pub record Extras : Type 0 where
    pub has_request_handler : Bool
    pub plugin_paths : Option Value
    pub session_fs : Option Value
    pub connect_params : Value

  abbrev pub Io : Type 0 → Type 0
  Io = Exec Failure Link

  unfoldable pub act : Action → Io (Unit {0})
  act a = modify (λ l. record l { actions = l.actions ++ a ∷ [] })

  -- an exception that the outside may throw
  unfoldable pub throw_some : Option String → Io (Unit {0})
  throw_some none = pure tt
  throw_some (some what) = raise (exception what)

  module _ (W : World) where
    open W use {load, spawn, announcement, tcp_connect, answer, destroy}

    -- `rpc_->invoke(method, params).get()`
    unfoldable pub call : String → Value → Io Value
    unfolding act
    call method params l = (
      answer l.calls_made method params,
      record l { calls_made = l.calls_made + 1; actions = l.actions ++ calls method ∷ [] },
    )

    -- start_in_process_runtime
    unfoldable pub start_in_process_runtime : Io (Unit {0})
    unfolding act throw_some
    start_in_process_runtime = do
      throw_some load
      act loads_runtime
      modify (λ l. record l { transport = some ffi })

    -- start_cli_server: the wait for the port, if the runtime does not talk over its pipes
    unfoldable pub wait_for_port : Bool → Result String ℤ → Io (Unit {0})
    wait_for_port true r l = (ok tt, l)
    wait_for_port false (err what) l = (err (exception what), l)
    wait_for_port false (ok port) l = (ok tt, record l { parsed = some ("localhost", port) })

    -- start_cli_server: the fields hold the process before it is spawned
    unfoldable pub spawn_runtime : Bool → Option String → Result String ℤ → Io (Unit {0})
    unfolding act throw_some wait_for_port
    spawn_runtime use_stdio spawned announced = do
      modify (λ l. record l { process = true })
      throw_some spawned
      act spawns
      wait_for_port use_stdio announced

    unfoldable pub start_cli_server : Options → Io (Unit {0})
    unfolding spawn_runtime
    start_cli_server o = spawn_runtime o.use_stdio spawn announcement

    -- connect_to_server: the TCP transport
    unfoldable pub connect_tcp : Option (String × ℤ) → Io (Unit {0})
    unfolding act throw_some
    connect_tcp none = raise (exception "No transport available - check configuration")
    connect_tcp (some (host, port)) = do
      throw_some (tcp_connect host port)
      act (tcp_connects host port)
      modify (λ l. record l { transport = some (socket host port) })

    -- connect_to_server: the standard streams of this process
    unfoldable pub open_parent : Io (Unit {0})
    unfolding act
    open_parent = do act opens_parent; modify (λ l. record l { transport = some parent_streams })

    -- connect_to_server: the pipes of the spawned process
    unfoldable pub open_pipes : Io (Unit {0})
    unfolding act
    open_pipes = do act opens_pipes; modify (λ l. record l { transport = some pipes })

    -- connect_to_server: the choice of the transport
    unfoldable pub choose_transport : Options → Io (Unit {0})
    unfolding open_parent open_pipes connect_tcp
    choose_transport o l =
        let local = if o.use_stdio && l.process then open_pipes else connect_tcp l.parsed in
        let fresh = if kind_is is_parent o then open_parent else local in
        (if is_some l.transport then pure tt else fresh) l

    -- connect_to_server
    unfoldable pub connect_to_server : Options → Extras → Io (Unit {0})
    unfolding choose_transport
    connect_to_server o x = do
      choose_transport o
      modify (λ l. record l {
        rpc = l.transport;
        transport = none;
        bridge = l.bridge || x.has_request_handler;
      })
