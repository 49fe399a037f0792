-- ===== src/Runtime/Shutdown.antt =====
-- src/client.cpp: `stop` and `force_stop`.
use copilot_cpp.Prelude.{
  Bool, false, none, some, String, List, [], ◌∷◌, ◌++◌, map, is_some, if◌then◌else◌,
}
use copilot_cpp.Json.{Json}
use copilot_cpp.Runtime.{
  disconnected, Action, destroys, cancels_tools, cancels_bridge, terminates, kills, stops_rpc,
  closes_transport, World, Link,
}

module _ (J : Json) where
  abbrev pub log : List Action → Link J → Link J
  log more l = record l { actions = l.actions ++ more }

  abbrev pub when : Bool → Action → List Action
  when b a = if b then a ∷ [] else []

  -- what stop and force_stop have in common: the fields are emptied under the lock, then the bridge,
  -- the process, the client and the transport are shut down, in this order
  unfoldable pub shut_down : Action → Link J → Link J
  shut_down ends l =
      log
        (map cancels_tools l.sessions
          ++ (when l.bridge cancels_bridge
              ++ (when l.process ends
                  ++ (when (is_some l.rpc) stops_rpc
                      ++ when (is_some l.transport) closes_transport))))
        (record l {
          state = disconnected;
          process = false;
          transport = none;
          rpc = none;
          bridge = false;
          models_cache = false;
          sessions = [];
        })

  -- force_stop
  unfoldable pub force_stop : Link J → Link J
  unfolding shut_down
  force_stop l = shut_down kills l

  module _ (W : World J) where
    -- stop: each session is destroyed, and what that throws is kept
    unfoldable pub destroy_all : List String → List String
    destroy_all [] = []
    destroy_all (id ∷ ids) =
        let rest = destroy_all ids in
        elim (World.destroy W id) [ none ↦ rest | some what ↦ what ∷ rest ]

    -- stop: the errors, and the client afterwards
    unfoldable pub stop : Link J → List String × Link J
    unfolding destroy_all shut_down
    stop l = (destroy_all l.sessions, shut_down terminates (log (map destroys l.sessions) l))
