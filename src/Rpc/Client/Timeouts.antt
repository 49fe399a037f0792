-- ===== src/Rpc/Client/Timeouts.antt =====
-- include/copilot/jsonrpc.hpp: when promises are set at the latest.
use copilot_cpp.Prelude.{
  ℕ, ◌<◌, ◌≤◌, ◌≡◌, refl, ap, true, false, List, [], ◌∷◌, arith, Bool-cases, inl, inr, All,
}
use copilot_cpp.Json.{Json}
use copilot_cpp.Rpc.Pending.{Pending, count, expired, live, is_expired, count-insert, deadline_of}
use copilot_cpp.Rpc.Client.{
  RpcError, Client, init, register, fail_all_pending, fail_expired, timeout_round, halt,
  join_threads, stop, timed_out, closed,
}
use copilot_cpp.Rpc.Client.Promises.{settled_count, IsValid, fail_each-SameRest}
use copilot_cpp.Rpc.Client.Steps.{
  Event, registers, withdraws, responds, rounds, times_out, fails_all, halts, joins, step, run,
}
use copilot_cpp.Rpc.Client.Conservation.{
  step-IsValid, Keeps, register-IsValid, run-tally, run-IsValid, fail_all_pending-Kept,
  init-IsValid,
}

count_nil : (i : ℕ) → count i [] ≡ 0
unfolding count
count_nil i = refl

live_unexpired : (now : ℕ) (ps : List Pending) → All (λ p. is_expired now p ≡ false) (live now ps)
unfolding live
live_unexpired now [] = tt
live_unexpired now (p ∷ ps) = elim (Bool-cases (is_expired now p)) [
  | inl e ↦ rw e (live_unexpired now ps)
  | inr e ↦ rw (e, live) (e, live_unexpired now ps)
]

module _ {J : Json} where
  live_each :
      (now : ℕ) (c : Client J) → All (λ p. is_expired now p ≡ false) (fail_expired J now c).pending
  unfolding fail_expired
  live_each now c =
      rw
        ((fail_each-SameRest (timed_out J) (expired now c.pending)
          (record c { pending = live now c.pending })).pending)
        (live_unexpired now c.pending)

  -- A round of the timeout thread, while the client runs, leaves no request pending whose deadline
  -- has come.
  pub timeout_round-live :
      (now : ℕ) (c : Client J)
      → c.running ≡ true
      → All (λ p. is_expired now p ≡ false) (timeout_round J now c).pending
  unfolding timeout_round
  timeout_round-live now c r = simp r (live_each now c)

  fail_all_pending-pending : (e : RpcError J) (c : Client J) → (fail_all_pending J e c).pending ≡ []
  unfolding fail_all_pending
  fail_all_pending-pending e c =
      (fail_each-SameRest e c.pending (record c { pending = [] })).pending

  -- After `stop`, every promise whose id was given out is set, once, unless `invoke` had taken the
  -- request back: no future is left waiting.
  pub stop_settles :
      (i : ℕ) (es : List (Event J))
      → All (Keeps i) es
      → 1 ≤ i
      → i < (run J (init J) es).next_id
      → settled_count i (stop J (run J (init J) es)).settled ≡ 1
  unfolding stop halt join_threads
  stop_settles i es k l h =
      let c = run J (init J) es in
      let c₁ = join_threads J (halt J c) in
      let v = run-IsValid es (init J) init-IsValid in
      let v₁ : IsValid c₁ = record { once = v.once; fresh = v.fresh; first = v.first } in
      let kept = fail_all_pending-Kept (closed J) c₁ v₁ in
      ground (
        arith,
        kept.same i,
        run-tally i es k,
        ap (count i) (fail_all_pending-pending (closed J) c₁),
        count_nil i,
      )

  -- What goes on after the connection has closed, until `stop`: the timeout thread's rounds, and
  -- further requests.
  abbrev pub IsUnattended : Event J → Type 0
  IsUnattended (rounds now) = Unit
  IsUnattended (registers now limit) = Unit
  IsUnattended _ = ⊥

  Unattended-step :
      (i : ℕ) (e : Event J) (c : Client J)
      → IsValid c
      → c.running ≡ false
      → IsUnattended e
      → count i c.pending ≡ 1
      → ((step J c e).running ≡ false) × (count i (step J c e).pending ≡ 1)
  unfolding step timeout_round register
  Unattended-step i (rounds now) c v r u h = simp r (refl, h)
  Unattended-step i (registers now limit) c v r u h = (
    r,
    ground (
      arith,
      h,
      count-insert (record { id = c.next_id; deadline = deadline_of now limit }) i c.pending,
    ),
  )
  Unattended-step i (withdraws id) c v r u h = absurd u
  Unattended-step i (responds message) c v r u h = absurd u
  Unattended-step i (times_out id) c v r u h = absurd u
  Unattended-step i fails_all c v r u h = absurd u
  Unattended-step i halts c v r u h = absurd u
  Unattended-step i joins c v r u h = absurd u

  Unattended-run :
      (i : ℕ) (es : List (Event J)) (c : Client J)
      → IsValid c
      → c.running ≡ false
      → All IsUnattended es
      → count i c.pending ≡ 1
      → count i (run J c es).pending ≡ 1
  unfolding run
  Unattended-run i [] c v r u h = h
  Unattended-run i (e ∷ es) c v r u h =
      let (r', h') = Unattended-step i e c v r u.0 h in
      Unattended-run i es (step J c e) (step-IsValid e c v) r' u.1 h'

  -- A request that `invoke` registers while the client does not run, as after the connection has
  -- closed, is not failed by the timeout thread, whatever its timeout: through any rounds at any
  -- times, and any further requests, its promise stays pending.
  pub late_request-waits :
      (now limit : ℕ) (es : List (Event J)) (c : Client J)
      → IsValid c
      → c.running ≡ false
      → All IsUnattended es
      → let (id, c') = register J now limit c in count id (run J c' es).pending ≡ 1
  unfolding register
  late_request-waits now limit es c v r u =
      Unattended-run c.next_id es (register J now limit c).1 (register-IsValid now limit c v) r u (
        ground (
          arith,
          count-insert (record { id = c.next_id; deadline = deadline_of now limit }) c.next_id
              c.pending,
        ))
