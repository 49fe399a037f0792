-- ===== src/Rpc/Client/Promises.antt =====
-- include/copilot/jsonrpc.hpp: how often a promise is pending, and how often it is set.
use copilot_cpp.Prelude.{
  ℕ, ◌+◌, ◌≤◌, ◌≡◌, refl, ◌∙◌, false, List, [], ◌∷◌, ◌==◌, if◌then◌else◌, arith,
}
use copilot_cpp.Json.{Json}
use copilot_cpp.Rpc.Pending.{Pending, count}
use copilot_cpp.Rpc.Client.{Client, Settled, RpcError, failure, is_settled, settle, fail_each}

module _ {J : Json} where
  unfoldable pub settled_count : ℕ → List (ℕ × Settled J) → ℕ
  settled_count id [] = 0
  settled_count id ((i, s) ∷ l) = (if i == id then 1 else 0) + settled_count id l

  not_settled :
      (id : ℕ) (l : List (ℕ × Settled J)) → settled_count id l ≡ 0 → is_settled J id l ≡ false
  unfolding settled_count is_settled
  not_settled id [] h = refl
  not_settled id ((i, s) ∷ l) h = ground (arith, not_settled id l)

  -- Pending or set, how often in all.
  abbrev pub tally : ℕ → Client J → ℕ
  tally i c = count i c.pending + settled_count i c.settled

  -- A promise is in one place at most, and none is there before its id is given out.
  pub record IsValid (c : Client J) : Type 0 where
    pub once : (i : ℕ) → tally i c ≤ 1
    pub fresh : (i : ℕ) → c.next_id ≤ i → tally i c ≡ 0
    pub first : 1 ≤ c.next_id

  -- What setting promises leaves alone.
  pub record SameRest (c c' : Client J) : Type 0 where
    pub pending : c'.pending ≡ c.pending
    pub next_id : c'.next_id ≡ c.next_id
    pub running : c'.running ≡ c.running

  pub settle-SameRest : (id : ℕ) (s : Settled J) (c : Client J) → SameRest c (settle J id s c)
  unfolding settle
  settle-SameRest id s c = ground arith

  pub fail_each-SameRest :
      (e : RpcError J) (ps : List Pending) (c : Client J) → SameRest c (fail_each J e ps c)
  unfolding fail_each
  fail_each-SameRest e [] c = record { pending = refl; next_id = refl; running = refl }
  fail_each-SameRest e (p ∷ ps) c =
      let a = settle-SameRest p.id (failure e) c in
      let b = fail_each-SameRest e ps (settle J p.id (failure e) c) in
      record {
        pending = b.pending ∙ a.pending;
        next_id = b.next_id ∙ a.next_id;
        running = b.running ∙ a.running;
      }

  -- A promise that is not set yet is set once.
  pub settled_count-settle :
      (id i : ℕ) (s : Settled J) (c : Client J)
      → settled_count id c.settled ≡ 0
      → settled_count i (settle J id s c).settled
        ≡ (if id == i then 1 else 0) + settled_count i c.settled
  unfolding settled_count settle
  settled_count-settle id i s c h = rw (not_settled id c.settled h, settle)

  -- So is each promise of a list of pending ones.
  pub settled_count-fail_each :
      (e : RpcError J) (i : ℕ) (ps : List Pending) (c : Client J)
      → ((j : ℕ) → count j ps + settled_count j c.settled ≤ 1)
      → settled_count i (fail_each J e ps c).settled ≡ count i ps + settled_count i c.settled
  unfolding fail_each count
  settled_count-fail_each e i [] c h = omega arith
  settled_count-fail_each e i (p ∷ ps) c h =
      let zero : settled_count p.id c.settled ≡ 0 = ground (arith, h p.id) in
      let c₁ = settle J p.id (failure e) c in
      ground (
        arith,
        settled_count-settle p.id i (failure e) c zero,
        settled_count-fail_each e i ps c₁
            (λ j. ground (arith, h j, settled_count-settle p.id j (failure e) c zero)),
      )
