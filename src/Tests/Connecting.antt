-- ===== src/Tests/Connecting.antt =====
-- src/client.cpp: a client that starts its own runtime over TCP.
use copilot_cpp.Prelude.{◌≡◌, refl, true, false, none, some, [], ◌∷◌, ◌⊎◌}
use copilot_cpp.Prelude.Int.{ℤ, pos}
use copilot_cpp.Prelude.Exec.{Result, ok, err}
use copilot_cpp.Launch.{apply_aliases}
use copilot_cpp.Runtime.{disconnected, connected, error, Failure, World, Link, Extras}
use copilot_cpp.Runtime.Startup.{start, way}
use copilot_cpp.Runtime.Shutdown.{stop}
use copilot_cpp.Runtime.Outcomes.{start-outcome}
use copilot_cpp.Runtime.Protocol.{in_range}
use copilot_cpp.Runtime.Restart.{restart_stale}
use copilot_cpp.Tests.Launching.{configured}
use copilot_cpp.Tests.Values.{nodes, number, object_of, fields}

-- A runtime that is spawned, announces a port and answers every call with its version.
abbrev runtime : World nodes
runtime = record {
  load = none;
  spawn = none;
  announcement = ok (pos 4141);
  tcp_connect = λ host port. none;
  answer = λ n method params. ok (object_of (fields (("protocolVersion", number (pos 3)) ∷ [])));
  destroy = λ id. none;
}

abbrev fresh : Link nodes
fresh = record {
  state = disconnected;
  parsed = none;
  process = false;
  transport = none;
  rpc = none;
  bridge = false;
  models_cache = false;
  sessions = [];
  protocol_version = none;
  server_version = none;
  calls_made = 0;
  actions = [];
}

abbrev extras : Extras nodes
extras = record {
  has_request_handler = true;
  plugin_paths = none;
  session_fs = none;
  connect_params = object_of (fields []);
}

abbrev started : Result (Failure nodes) (Unit {0}) × Link nodes
started = start nodes runtime configured extras fresh

start-outcome_example :
    ((started.0 ≡ ok tt)
      × ((started.1.state ≡ connected)
          × ((v : ℤ) × (started.1.protocol_version ≡ some v) × (in_range v ≡ true))))
    ⊎ ((e : Failure nodes) × (started.0 ≡ err e) × (started.1.state ≡ error))
start-outcome_example = start-outcome runtime configured extras fresh refl

restart_stale_example :
    let again = (start nodes runtime configured extras (stop nodes runtime started.1).1).1 in
    (started.1.process ≡ true)
    × (again.process ≡ false)
    × (again.parsed ≡ some ("localhost", pos 4141))
unfolding way apply_aliases
restart_stale_example =
    restart_stale runtime configured extras fresh (pos 4141) refl refl refl refl refl
