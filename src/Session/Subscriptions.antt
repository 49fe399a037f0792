-- ===== src/Session/Subscriptions.antt =====
-- src/session.cpp: `on`, the cancel of a subscription, and the handlers' part of `dispatch_event`.
pub mod Exactness
use copilot_cpp.Prelude.{
  ℕ, ◌+◌, Bool, true, false, Option, none, some, String, List, [], ◌∷◌, ◌++◌, map, ◌==◌,
  if◌then◌else◌,
}
use copilot_cpp.Prelude.Exec.{Result, ok, err}

module _ (H : Type 0) where
  -- `next_handler_id_` and `event_handlers_`
  pub record Registry : Type 0 where
    pub next_handler_id : ℕ
    pub event_handlers : List (ℕ × H)

  -- what a handler may do to the registry of its session
  pub data Op : Type 0 where
    subscribes : H → Op
    unsubscribes : ℕ → Op

  -- A run of a handler: what it does to the registry, and the exception that it may end with.
  pub record Run : Type 0 where
    pub ops : List Op
    pub thrown : Option String

module _ {H : Type 0} where
  -- on: the id of the subscription, and the registry afterwards
  unfoldable pub on : H → Registry H → ℕ × Registry H
  on h r =
      let id = r.next_handler_id in
      (id, record r { next_handler_id = id + 1; event_handlers = r.event_handlers ++ (id, h) ∷ [] })

  unfoldable pub remove_id : ℕ → List (ℕ × H) → List (ℕ × H)
  remove_id id [] = []
  remove_id id ((i, h) ∷ es) = let rest = remove_id id es in if i == id then rest else (i, h) ∷ rest

  -- the cancel of the subscription `id`
  unfoldable pub unsubscribe : ℕ → Registry H → Registry H
  unfolding remove_id
  unsubscribe id r = record r { event_handlers = remove_id id r.event_handlers }

  unfoldable pub apply : Op H → Registry H → Registry H
  unfolding on unsubscribe
  apply (subscribes h) r = (on h r).1
  apply (unsubscribes id) r = unsubscribe id r

  unfoldable pub apply_all : List (Op H) → Registry H → Registry H
  unfolding apply
  apply_all [] r = r
  apply_all (op ∷ ops) r = apply_all ops (apply op r)

  -- `run` is the code of the handlers, which may look at the registry.
  module _ {Event : Type 0} (run : H → Event → Registry H → Run H) where
    -- the call of a handler
    unfoldable pub call_handler : H → Event → Registry H → Result String (Unit {0}) × Registry H
    unfolding apply_all
    call_handler h event r =
        let done = run h event r in
        (elim done.thrown [ none ↦ ok tt | some what ↦ err what ], apply_all done.ops r)

    -- the loop over the copied handlers, with its `catch (...)`, and the handlers that were called
    unfoldable pub call_each : List H → Event → Registry H → List H × Registry H
    unfolding call_handler
    call_each [] event r = ([], r)
    call_each (h ∷ hs) event r =
        let (result, after) = call_handler h event r in
        let (called, last) = call_each hs event after in (h ∷ called, last)

    -- dispatch_event, where no handler of the session itself takes the event
    unfoldable pub dispatch : Event → Registry H → List H × Registry H
    unfolding call_each
    dispatch event r = call_each (map (λ e. e.1) r.event_handlers) event r
