-- ===== src/Rpc/Client/Conservation.antt =====
-- include/copilot/jsonrpc.hpp: no promise is lost, and none is set twice.
use copilot_cpp.Prelude.{
  ℕ, ◌+◌, ◌≤◌, ◌≡◌, ◌≢◌, refl, ap, Option, none, some, List, [], ◌∷◌, ◌==◌, leb, ltb, ◌&&◌,
  if◌then◌else◌, arith, Bool-cases, Option-cases, inl, inr, All,
}
use copilot_cpp.Prelude.Exec.{Result-cases}
use copilot_cpp.Json.{Json}
use copilot_cpp.Rpc.Message.{response_from_json}
use copilot_cpp.Rpc.Pending.{
  Pending, count, find, erase, expired, live, count-erase, count-insert, count-split, count-find,
  find_id, deadline_of,
}
use copilot_cpp.Rpc.Client.{
  Client, Settled, RpcError, failure, settle, fail_each, init, register, withdraw, resolve,
  fail_pending_request, fail_all_pending, fail_expired, timeout_round, handle_response, halt,
  join_threads, own_id, outcome_of, timed_out, closed,
}
use copilot_cpp.Rpc.Client.Promises.{
  settled_count, tally, IsValid, settle-SameRest, fail_each-SameRest, settled_count-settle,
  settled_count-fail_each,
}
use copilot_cpp.Rpc.Client.Steps.{
  Event, registers, withdraws, responds, rounds, times_out, fails_all, halts, joins, step, run,
  after,
}

module _ {J : Json} where
  -- Each promise stays where it is, or is set while it was pending.
  pub record Kept (c c' : Client J) : Type 0 where
    pub same : (i : ℕ) → tally i c' ≡ tally i c
    pub next : c'.next_id ≡ c.next_id

  pub Kept-IsValid : {c c' : Client J} → IsValid c → Kept c c' → IsValid c'
  Kept-IsValid v k = record {
    once = λ i. omega (arith, v.once i, k.same i);
    fresh = λ i h. omega (arith, v.fresh i (omega (arith, k.next)), k.same i);
    first = omega (arith, v.first, k.next);
  }

  Kept-refl : (c : Client J) → Kept c c
  Kept-refl c = record { same = λ i. refl; next = refl }

  -- A pending promise is taken out and set.
  take_and_settle :
      (id : ℕ) (s : Settled J) (p : Pending) (c : Client J)
      → IsValid c
      → find id c.pending ≡ some p
      → Kept c (settle J p.id s (record c { pending = erase id c.pending }))
  take_and_settle id s p c v e =
      let c₁ : Client J = record c { pending = erase id c.pending } in
      let r = settle-SameRest p.id s c₁ in
      let same_id = find_id id c.pending p e in
      let there = count-find id c.pending p e in
      let zero : settled_count p.id c₁.settled ≡ 0 = rw same_id (omega (arith, there, v.once id)) in
      record {
        same = λ i. ground (
          arith,
          ap (count i) r.pending,
          settled_count-settle p.id i s c₁ zero,
          count-erase id i c.pending,
          same_id,
          there,
          v.once id,
          v.once i,
        );
        next = r.next_id;
      }

  -- Some pending promises are taken out together and set.
  fail_each-Kept :
      (e : RpcError J) (ps rest : List Pending) (c : Client J)
      → IsValid c
      → ((i : ℕ) → count i ps + count i rest ≡ count i c.pending)
      → Kept c (fail_each J e ps (record c { pending = rest }))
  fail_each-Kept e ps rest c v split =
      let c₁ : Client J = record c { pending = rest } in
      let r = fail_each-SameRest e ps c₁ in
      record {
        same = λ i. omega (
          arith,
          ap (count i) r.pending,
          settled_count-fail_each e i ps c₁ (λ j. omega (arith, split j, v.once j)),
          split i,
        );
        next = r.next_id;
      }

  pub fail_all_pending-Kept :
      (e : RpcError J) (c : Client J) → IsValid c → Kept c (fail_all_pending J e c)
  unfolding fail_all_pending count
  fail_all_pending-Kept e c v = fail_each-Kept e c.pending [] c v (λ i. omega arith)

  fail_expired-Kept : (now : ℕ) (c : Client J) → IsValid c → Kept c (fail_expired J now c)
  unfolding fail_expired
  fail_expired-Kept now c v =
      fail_each-Kept (timed_out J) (expired now c.pending) (live now c.pending) c v
        (λ i. count-split now i c.pending)

  timeout_round-Kept : (now : ℕ) (c : Client J) → IsValid c → Kept c (timeout_round J now c)
  unfolding timeout_round
  timeout_round-Kept now c v = elim (Bool-cases c.running) [
    | inl r ↦ simp r (fail_expired-Kept now c v)
    | inr r ↦ simp r (record { same = λ i. refl; next = refl })
  ]

  resolve-Kept :
      (id : Option ℕ) (s : Settled J) (c : Client J) → IsValid c → Kept c (resolve J id s c)
  unfolding resolve
  resolve-Kept none s c v = Kept-refl c
  resolve-Kept (some id) s c v = elim (Option-cases (find id c.pending)) [
    | inl e ↦ rw (e, resolve) (Kept-refl c)
    | inr (p, e) ↦ rw (e, resolve) (take_and_settle id s p c v e)
  ]

  fail_pending_request-Kept :
      (id : ℕ) (e : RpcError J) (c : Client J) → IsValid c → Kept c (fail_pending_request J id e c)
  unfolding fail_pending_request
  fail_pending_request-Kept id x c v = elim (Option-cases (find id c.pending)) [
    | inl e ↦ rw (e, fail_pending_request) (Kept-refl c)
    | inr (p, e) ↦ rw (e, fail_pending_request) (take_and_settle id (failure x) p c v e)
  ]

  responds-Kept :
      (message : Json.Value J) (c : Client J)
      → IsValid c
      → Kept c (after J c (handle_response J message c))
  unfolding handle_response
  responds-Kept message c v = elim (Result-cases (response_from_json J message)) [
    | inl (r, e) ↦ rw (e, handle_response) (resolve-Kept (own_id J r.id) (outcome_of J r) c v)
    | inr (x, e) ↦ rw (e, handle_response) (Kept-refl c)
  ]

  pub register-tally :
      (now limit i : ℕ) (c : Client J)
      → IsValid c
      → tally i (register J now limit c).1 ≡ (if c.next_id == i then 1 else tally i c)
  unfolding register
  register-tally now limit i c v = ground (
    arith,
    count-insert (record { id = c.next_id; deadline = deadline_of now limit }) i c.pending,
    v.fresh i,
  )

  pub register-IsValid :
      (now limit : ℕ) (c : Client J) → IsValid c → IsValid (register J now limit c).1
  unfolding register
  register-IsValid now limit c v = record {
    once = λ i. ground (arith, register-tally now limit i c v, v.once i);
    fresh = λ i h. ground (arith, register-tally now limit i c v, v.fresh i);
    first = omega (arith, v.first);
  }

  withdraw-tally :
      (id i : ℕ) (c : Client J)
      → tally i (withdraw J id c)
        ≡ (if id == i then 0 else count i c.pending) + settled_count i c.settled
  unfolding withdraw
  withdraw-tally id i c = rw (count-erase id i c.pending)

  withdraw-IsValid : (id : ℕ) (c : Client J) → IsValid c → IsValid (withdraw J id c)
  unfolding withdraw
  withdraw-IsValid id c v = record {
    once = λ i. ground (arith, withdraw-tally id i c, v.once i);
    fresh = λ i h. ground (arith, withdraw-tally id i c, v.fresh i);
    first = v.first;
  }

  -- Every critical section keeps the promises in order.
  pub step-IsValid : (e : Event J) (c : Client J) → IsValid c → IsValid (step J c e)
  unfolding step halt join_threads
  step-IsValid (registers now limit) c v = register-IsValid now limit c v
  step-IsValid (withdraws id) c v = withdraw-IsValid id c v
  step-IsValid (responds message) c v = Kept-IsValid v (responds-Kept message c v)
  step-IsValid (rounds now) c v = Kept-IsValid v (timeout_round-Kept now c v)
  step-IsValid (times_out id) c v = Kept-IsValid v (fail_pending_request-Kept id (timed_out J) c v)
  step-IsValid fails_all c v = Kept-IsValid v (fail_all_pending-Kept (closed J) c v)
  step-IsValid halts c v = record { once = v.once; fresh = v.fresh; first = v.first }
  step-IsValid joins c v = record { once = v.once; fresh = v.fresh; first = v.first }

  pub run-IsValid : (es : List (Event J)) (c : Client J) → IsValid c → IsValid (run J c es)
  unfolding run
  run-IsValid [] c v = v
  run-IsValid (e ∷ es) c v = run-IsValid es (step J c e) (step-IsValid e c v)

  pub init-IsValid : IsValid (init J)
  unfolding count settled_count
  init-IsValid = record { once = λ i. omega arith; fresh = λ i h. refl; first = omega arith }

  -- `invoke` did not take the promise of `i` back.
  abbrev pub Keeps : ℕ → Event J → Type 0
  Keeps i (withdraws id) = id ≢ i
  Keeps i _ = Unit

  -- The promise of `i` is in one place exactly if its id was given out.
  abbrev pub Exact : ℕ → Client J → Type 0
  Exact i c = tally i c ≡ (if leb 1 i && ltb i c.next_id then 1 else 0)

  Kept-Exact : (i : ℕ) {c c' : Client J} → Exact i c → Kept c c' → Exact i c'
  Kept-Exact i x k = rw (k.next, k.same i) x

  step-Exact :
      (i : ℕ) (e : Event J) (c : Client J)
      → IsValid c
      → Keeps i e
      → Exact i c
      → Exact i (step J c e)
  unfolding step halt join_threads register withdraw
  step-Exact i (registers now limit) c v k x =
      rw (register-tally now limit i c v) (ground (arith, x, v.first))
  step-Exact i (withdraws id) c v k x = rw (withdraw-tally id i c) (ground (arith, x))
  step-Exact i (responds message) c v k x = Kept-Exact i x (responds-Kept message c v)
  step-Exact i (rounds now) c v k x = Kept-Exact i x (timeout_round-Kept now c v)
  step-Exact i (times_out id) c v k x =
      Kept-Exact i x (fail_pending_request-Kept id (timed_out J) c v)
  step-Exact i fails_all c v k x = Kept-Exact i x (fail_all_pending-Kept (closed J) c v)
  step-Exact i halts c v k x = x
  step-Exact i joins c v k x = x

  pub run-Exact :
      (i : ℕ) (es : List (Event J)) (c : Client J)
      → IsValid c
      → All (Keeps i) es
      → Exact i c
      → Exact i (run J c es)
  unfolding run
  run-Exact i [] c v k x = x
  run-Exact i (e ∷ es) c v k x =
      run-Exact i es (step J c e) (step-IsValid e c v) k.1 (step-Exact i e c v k.0 x)

  -- After any interleaving of the critical sections in which `invoke` does not take the request `i`
  -- back, its promise is pending or set, in one place and once, exactly if the id `i` was given out.
  pub run-tally :
      (i : ℕ) (es : List (Event J))
      → All (Keeps i) es
      → let c = run J (init J) es in tally i c ≡ (if leb 1 i && ltb i c.next_id then 1 else 0)
  unfolding count settled_count
  run-tally i es k = run-Exact i es (init J) init-IsValid k (ground arith)

  -- No interleaving sets a promise twice, or sets one that is still pending.
  pub run_once : (i : ℕ) (es : List (Event J)) → tally i (run J (init J) es) ≤ 1
  run_once i es = (run-IsValid es (init J) init-IsValid).once i
