-- ===== src/Session/Tasks/Silence.antt =====
-- src/session.cpp: when a background task does not answer, and what it leaves of the tally.
use copilot_cpp.Prelude.{
  ℕ, ◌+◌, ◌-◌, ◌<◌, ◌≤◌, ◌≡◌, refl, ◌∙◌, ap, Bool, true, false, String, List, Bool-cases, inl, inr,
  ◌⊎◌, arith,
}
use copilot_cpp.Prelude.Text.{str_eq}
use copilot_cpp.Prelude.Exec.{Result, ok, err, pure}
use copilot_cpp.Json.{Json}
use copilot_cpp.Session.Tasks.{
  Thrown, standard, foreign, catch_standard, catch_all, ToolInvocation, ToolRequest,
  PermissionResult, Desk, Surroundings, Io, invoke, answer, answer_result, answer_error, tool_task,
  external_tool, uncount, decided, invocation_of, result_payload, error_payload, unavailable,
  decision, decide, not_available, permission_task,
}

module _ {J : Json} (S : Surroundings J) where
  open J use {Value, text, object}

  -- the tally of the tools under way
  abbrev KeepsPending : (Desk J → Result Thrown (Unit {0}) × Desk J) → Type 0
  KeepsPending m = (d : Desk J) → (m d).1.pending ≡ d.pending

  KeepsPending-answer : (payload : List (String × Value)) → KeepsPending (answer J S payload)
  unfolding answer invoke
  KeepsPending-answer payload d = elim (Bool-cases (Surroundings.cancelled S d.reads)) [
    | inl e ↦ rw (e, answer) refl
    | inr e ↦ rw (e, answer) refl
  ]

  KeepsPending-answer_result :
      (r : ToolRequest J) (o : Result Thrown Value) → KeepsPending (answer_result J S r o)
  unfolding answer_result
  KeepsPending-answer_result r (ok v) d = KeepsPending-answer (result_payload J r v) d
  KeepsPending-answer_result r (err e) d = refl

  -- A caught task ends well and leaves what `keeps` says.
  caught_pending :
      (r : Result Thrown (Unit {0}) × Desk J)
      → ((catch_all r (pure tt)).0 ≡ ok tt) × ((catch_all r (pure tt)).1.pending ≡ r.1.pending)
  unfolding catch_all
  caught_pending (ok tt, d) = (refl, refl)
  caught_pending (err e, d) = (refl, refl)

  -- what is left of `pending` when the count is taken back, or is not
  abbrev Uncounted : ℕ → Result Thrown (Unit {0}) × Desk J → Type 0
  Uncounted n r =
      ((r.0 ≡ ok tt) × (r.1.pending ≡ n - 1)) ⊎ ((r.0 ≡ err foreign) × (r.1.pending ≡ n))

  Uncounted-ok :
      (n : ℕ) (r : Result Thrown (Unit {0}) × Desk J)
      → r.0 ≡ ok tt
      → r.1.pending ≡ n
      → Uncounted n (uncount J S r)
  unfolding uncount
  Uncounted-ok n (ok u, d) w e = inl (refl, ap (λ m. m - 1) e)
  Uncounted-ok n (err t, d) w e = absurd cc

  Uncounted-uncount :
      (n : ℕ) (r : Result Thrown (Unit {0}) × Desk J) (f : String → Io J (Unit {0}))
      → r.1.pending ≡ n
      → ((what : String) (d : Desk J) → ((f what d).0 ≡ ok tt) × ((f what d).1.pending ≡ d.pending))
      → Uncounted n (uncount J S (catch_standard r f))
  unfolding uncount catch_standard
  Uncounted-uncount n (ok u, d) f e k = inl (refl, ap (λ m. m - 1) e)
  Uncounted-uncount n (err (standard what), d) f e k =
      let (well, same) = k what d in Uncounted-ok n (f what d) well (same ∙ e)
  Uncounted-uncount n (err foreign, d) f e k = inr (refl, e)

  Quiet-uncount : (r : Result Thrown (Unit {0}) × Desk J) → (uncount J S r).1.sent ≡ r.1.sent
  unfolding uncount
  Quiet-uncount (ok u, d) = refl
  Quiet-uncount (err e, d) = refl

  Quiet-catch_all :
      (r : Result Thrown (Unit {0}) × Desk J) → (catch_all r (pure tt)).1.sent ≡ r.1.sent
  unfolding catch_all
  Quiet-catch_all (ok u, d) = refl
  Quiet-catch_all (err e, d) = refl

  -- A tool task that ends well leaves the tally as it was; one that ends with an exception, which is
  -- then not a `std::exception`, leaves it one higher.
  pub tool_pending :
      (handler : ToolInvocation J → Result Thrown Value) (r : ToolRequest J) (d : Desk J)
      → (((external_tool J S handler r d).0 ≡ ok tt)
          × ((external_tool J S handler r d).1.pending ≡ d.pending))
        ⊎ (((external_tool J S handler r d).0 ≡ err foreign)
            × ((external_tool J S handler r d).1.pending ≡ d.pending + 1))
  unfolding external_tool tool_task answer_error
  tool_pending handler r d =
      let counted : Desk J = record d { pending = d.pending + 1 } in
      let made = handler (invocation_of J S r) in
      let all =
        Uncounted-uncount (d.pending + 1) (answer_result J S r made counted) (answer_error J S r)
          (KeepsPending-answer_result r made counted)
          (λ what d'.
            let (p, q) = caught_pending (answer J S (error_payload J r what) d') in
            (p, q ∙ KeepsPending-answer (error_payload J r what) d')) in
      elim all [ inl (p, q) ↦ inl (p, omega (arith, q)) | inr both ↦ inr both ]

  module _ (stopped : (n : ℕ) → Surroundings.cancelled S n ≡ true) where
    Quiet-answer :
        (payload : List (String × Value)) (d : Desk J) → (answer J S payload d).1.sent ≡ d.sent
    unfolding answer
    Quiet-answer payload d = rw (stopped d.reads) refl

    Quiet-answer_result :
        (r : ToolRequest J) (o : Result Thrown Value) (d : Desk J)
        → (answer_result J S r o d).1.sent ≡ d.sent
    unfolding answer_result
    Quiet-answer_result r (ok v) d = Quiet-answer (result_payload J r v) d
    Quiet-answer_result r (err e) d = refl

    Quiet-caught :
        (r : Result Thrown (Unit {0}) × Desk J) (f : String → Io J (Unit {0}))
        → ((what : String) (d : Desk J) → (f what d).1.sent ≡ d.sent)
        → (uncount J S (catch_standard r f)).1.sent ≡ r.1.sent
    unfolding catch_standard
    Quiet-caught (ok u, d) f k = Quiet-uncount (ok u, d)
    Quiet-caught (err (standard what), d) f k = Quiet-uncount (f what d) ∙ k what d
    Quiet-caught (err foreign, d) f k = Quiet-uncount (err foreign, d)

    -- A tool task all of whose reads of the flag see the cancellation makes no call, whatever the
    -- handler comes to.
    pub tool_silent :
        (handler : ToolInvocation J → Result Thrown Value) (r : ToolRequest J) (d : Desk J)
        → (external_tool J S handler r d).1.sent ≡ d.sent
    unfolding external_tool tool_task answer_error
    tool_silent handler r d =
        let counted : Desk J = record d { pending = d.pending + 1 } in
        let made = handler (invocation_of J S r) in
        Quiet-caught (answer_result J S r made counted) (answer_error J S r) (λ what d'.
          Quiet-catch_all (answer J S (error_payload J r what) d')
          ∙ Quiet-answer (error_payload J r what) d')
        ∙ Quiet-answer_result r made counted

  -- the handler leaves the answer to somebody else
  abbrev pub is_silent : Result Thrown (PermissionResult J) → Bool
  is_silent (ok p) = str_eq p.kind "no-result"
  is_silent (err e) = false

  Sends-caught :
      (n : ℕ) (r : Result Thrown (Unit {0}) × Desk J) (f : Io J (Unit {0}))
      → n < r.1.sends
      → ((d : Desk J) → d.sends ≤ (f d).1.sends)
      → n < (catch_all r f).1.sends
  unfolding catch_all
  Sends-caught n (ok u, d) f h k = h
  Sends-caught n (err e, d) f h k = omega (arith, h, k d)

  sends-catch_all :
      (r : Result Thrown (Unit {0}) × Desk J) → (catch_all r (pure tt)).1.sends ≡ r.1.sends
  unfolding catch_all
  sends-catch_all (ok u, d) = refl
  sends-catch_all (err e, d) = refl

  sends-invoke :
      (params : List (String × Value)) (d : Desk J)
      → d.sends < (invoke J S "session.permissions.handlePendingPermissionRequest" params d).1.sends
  unfolding invoke
  sends-invoke params d = omega arith

  sends-not_available : (id : String) (d : Desk J) → (not_available J S id d).1.sends ≡ d.sends + 1
  unfolding not_available invoke
  sends-not_available id d =
      sends-catch_all
        (invoke J S "session.permissions.handlePendingPermissionRequest" (unavailable J id) d)

  -- either silent and nothing done, or not and at least one call made
  abbrev Speaks :
      Result Thrown (PermissionResult J) → Desk J → Result Thrown (Unit {0}) × Desk J → Type 0
  Speaks made d r =
      ((is_silent made ≡ true) × (r ≡ (ok tt, d)))
      ⊎ ((is_silent made ≡ false) × (d.sends < r.1.sends))

  Speaks-decide :
      (id : String) (made : Result Thrown (PermissionResult J)) (d : Desk J)
      → Speaks made d (catch_all (decide J S id made d) (not_available J S id))
  unfolding decide catch_all
  Speaks-decide id (err e) d = inr (refl, omega (arith, sends-not_available id d))
  Speaks-decide id (ok p) d = elim (Bool-cases (str_eq p.kind "no-result")) [
    | inl e ↦ inl (e, rw (e, decide) refl)
    | inr e ↦ inr (
      e,
      rw (e, decide)
          (Sends-caught d.sends
            (invoke J S "session.permissions.handlePendingPermissionRequest" (decision J id p) d)
            (not_available J S id) (sends-invoke (decision J id p) d)
            (λ d'. omega (arith, sends-not_available id d'))),
    )
  ]

  -- The permission task does nothing when the handler's result is of the kind no-result; in every
  -- other case, exceptions included, it makes at least one call.
  pub permission_answers :
      {R : Type 0} (handler : R → Result Thrown (PermissionResult J)) (id : String)
      (request : Result Thrown R) (d : Desk J)
      → ((is_silent (decided J S handler request) ≡ true)
          × (permission_task J S handler id request d ≡ (ok tt, d)))
        ⊎ ((is_silent (decided J S handler request) ≡ false)
            × (d.sends < (permission_task J S handler id request d).1.sends))
  unfolding permission_task
  permission_answers handler id request d = Speaks-decide id (decided J S handler request) d
