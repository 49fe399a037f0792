-- ===== src/Session/Tasks/Answers.antt =====
-- src/session.cpp: how often, and with what, a background task answers.
use copilot_cpp.Prelude.{
  ◌+◌, ◌≤◌, ◌≡◌, refl, String, List, [], ◌∷◌, ◌++◌, Bool-cases, inl, inr, ◌⊎◌, arith,
}
use copilot_cpp.Prelude.Text.{str_eq}
use copilot_cpp.Prelude.Exec.{Result, Result-cases, ok, err, pure}
use copilot_cpp.Json.{Json}
use copilot_cpp.Session.Tasks.{
  Thrown, standard, foreign, catch_standard, catch_all, ToolInvocation, ToolRequest,
  PermissionResult, Desk, Surroundings, Io, invoke, answer, answer_result, answer_error, tool_task,
  external_tool, uncount, decided, invocation_of, result_payload, error_payload, unavailable,
  decision, decide, not_available, permission_task,
}

module _ {J : Json} (S : Surroundings J) where
  open J use {Value, text, object}

  -- A call that the runtime takes ends well; one that it does not take throws.
  abbrev Once : (Desk J → Result Thrown (Unit {0}) × Desk J) → Type 0
  Once m =
      (d : Desk J)
      → (((m d).0 ≡ ok tt) × ((m d).1.accepted ≤ d.accepted + 1))
        ⊎ ((e : Thrown) × ((m d).0 ≡ err e) × ((m d).1.accepted ≡ d.accepted))

  Once-invoke : (method : String) (params : List (String × Value)) → Once (invoke J S method params)
  unfolding invoke
  Once-invoke method params d =
      elim (Result-cases (
        Surroundings.send S d.sends method
          (object (params ++ ("sessionId", text (Surroundings.session_id S)) ∷ [])))) [
            | inl (v, e) ↦ rw (e, invoke) (inl (refl, omega arith))
            | inr (t, e) ↦ rw (e, invoke) (inr (t, refl, omega arith))
          ]

  Once-answer : (payload : List (String × Value)) → Once (answer J S payload)
  unfolding answer
  Once-answer payload d = elim (Bool-cases (Surroundings.cancelled S d.reads)) [
    | inl e ↦ rw (e, answer) (inl (refl, omega arith))
    | inr e ↦
        rw (e, answer)
          (Once-invoke "session.tools.handlePendingToolCall" payload
            (record d { reads = d.reads + 1 }))
  ]

  Once-answer_result : (r : ToolRequest J) (o : Result Thrown Value) → Once (answer_result J S r o)
  unfolding answer_result
  Once-answer_result r (ok v) d = Once-answer (result_payload J r v) d
  Once-answer_result r (err e) d = inr (e, refl, refl)

  -- What is done last, when nothing can be thrown any more.
  abbrev Last : Desk J → Result Thrown (Unit {0}) × Desk J → Type 0
  Last d r = (r.0 ≡ ok tt) × (r.1.accepted ≤ d.accepted + 1)

  Last-catch_all :
      (r : Result Thrown (Unit {0}) × Desk J) (d : Desk J)
      → ((r.0 ≡ ok tt) × (r.1.accepted ≤ d.accepted + 1))
        ⊎ ((e : Thrown) × (r.0 ≡ err e) × (r.1.accepted ≡ d.accepted))
      → (f : Io J (Unit {0})) → ((d' : Desk J) → Last d' (f d'))
      → Last d (catch_all r f)
  unfolding catch_all
  Last-catch_all (ok tt, s) d (inl (p, q)) f last = (p, q)
  Last-catch_all (ok tt, s) d (inr (e, p, q)) f last = absurd cc
  Last-catch_all (err e, s) d (inl (p, q)) f last = absurd cc
  Last-catch_all (err e, s) d (inr (e', p, q)) f last =
      let (a, b) = last s in (a, omega (arith, b, q))

  Last-quiet : (d : Desk J) → Last d (ok tt, d)
  Last-quiet d = (refl, omega arith)

  Last-answer_error :
      (r : ToolRequest J) (what : String) (d : Desk J) → Last d (answer_error J S r what d)
  unfolding answer_error
  Last-answer_error r what d =
      Last-catch_all (answer J S (error_payload J r what) d) d
        (Once-answer (error_payload J r what) d) (pure tt) Last-quiet

  Last-not_available : (id : String) (d : Desk J) → Last d (not_available J S id d)
  unfolding not_available
  Last-not_available id d =
      let method : String = "session.permissions.handlePendingPermissionRequest" in
      Last-catch_all (invoke J S method (unavailable J id) d) d
        (Once-invoke method (unavailable J id) d) (pure tt) Last-quiet

  Once-decide : (id : String) (o : Result Thrown (PermissionResult J)) → Once (decide J S id o)
  unfolding decide
  Once-decide id (err e) d = inr (e, refl, refl)
  Once-decide id (ok p) d = elim (Bool-cases (str_eq p.kind "no-result")) [
    | inl e ↦ rw (e, decide) (inl (refl, omega arith))
    | inr e ↦
        rw (e, decide)
          (Once-invoke "session.permissions.handlePendingPermissionRequest" (decision J id p) d)
  ]

  -- The permission task throws nothing and has at most one answer taken by the runtime, whatever the
  -- handler, the reading of the request and the calls come to.
  pub permission_once :
      {R : Type 0} (handler : R → Result Thrown (PermissionResult J)) (id : String)
      (request : Result Thrown R) (d : Desk J)
      → ((permission_task J S handler id request d).0 ≡ ok tt)
        × ((permission_task J S handler id request d).1.accepted ≤ d.accepted + 1)
  unfolding permission_task
  permission_once handler id request d =
      let made = decided J S handler request in
      Last-catch_all (decide J S id made d) d (Once-decide id made d) (not_available J S id)
        (Last-not_available id)

  Once-catch_standard :
      (r : Result Thrown (Unit {0}) × Desk J) (d : Desk J)
      → ((r.0 ≡ ok tt) × (r.1.accepted ≤ d.accepted + 1))
        ⊎ ((e : Thrown) × (r.0 ≡ err e) × (r.1.accepted ≡ d.accepted))
      → (f : String → Io J (Unit {0})) → ((what : String) (d' : Desk J) → Last d' (f what d'))
      → (catch_standard r f).1.accepted ≤ d.accepted + 1
  unfolding catch_standard
  Once-catch_standard (ok tt, s) d (inl (p, q)) f last = q
  Once-catch_standard (ok tt, s) d (inr (e, p, q)) f last = absurd cc
  Once-catch_standard (err e, s) d (inl (p, q)) f last = absurd cc
  Once-catch_standard (err (standard what), s) d (inr (e', p, q)) f last =
      omega (arith, (last what s).1, q)
  Once-catch_standard (err foreign, s) d (inr (e', p, q)) f last = omega (arith, q)

  accepted-uncount :
      (r : Result Thrown (Unit {0}) × Desk J) → (uncount J S r).1.accepted ≡ r.1.accepted
  unfolding uncount
  accepted-uncount (ok u, d) = refl
  accepted-uncount (err e, d) = refl

  -- The task of a tool has at most one answer taken by the runtime, whatever the handler, the
  -- cancellation and the calls come to.
  pub tool_once :
      (handler : ToolInvocation J → Result Thrown Value) (r : ToolRequest J) (d : Desk J)
      → (external_tool J S handler r d).1.accepted ≤ d.accepted + 1
  unfolding external_tool tool_task
  tool_once handler r d =
      let counted : Desk J = record d { pending = d.pending + 1 } in
      let made = handler (invocation_of J S r) in
      rw (accepted-uncount (catch_standard (answer_result J S r made counted) (answer_error J S r)))
        (Once-catch_standard (answer_result J S r made counted) counted
          (Once-answer_result r made counted) (answer_error J S r) (Last-answer_error r))
