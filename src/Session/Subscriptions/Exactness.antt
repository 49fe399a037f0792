-- ===== src/Session/Subscriptions/Exactness.antt =====
-- src/session.cpp: a subscription is there until its own cancel, and no other is touched by it.
use copilot_cpp.Prelude.{
  ℕ, ◌+◌, ◌≤◌, ◌<◌, ◌≡◌, ◌≢◌, refl, ap, ◌∙◌, Bool, false, ◌||◌, Option, none, some, List, [], ◌∷◌,
  ◌++◌, map, ◌==◌, ==_refl, Bool-cases, if◌then◌else◌, inl, inr, arith,
}
use copilot_cpp.Session.Subscriptions.{
  Registry, on, remove_id, unsubscribe, Op, subscribes, unsubscribes, apply, apply_all, Run,
  call_handler, call_each, dispatch,
}

module _ {H : Type 0} where
  -- the handler of a subscription
  unfoldable pub handler_of : ℕ → List (ℕ × H) → Option H
  handler_of id [] = none
  handler_of id ((i, h) ∷ es) = if i == id then some h else handler_of id es

  -- The ids rise from `low` on and stay below `high`.
  unfoldable pub Rises : ℕ → List (ℕ × H) → ℕ → Type 0
  Rises low [] high = low ≤ high
  Rises low ((i, h) ∷ es) high = (low ≤ i) × Rises (i + 1) es high

  abbrev pub IsValid : Registry H → Type 0
  IsValid r = Rises 0 r.event_handlers r.next_handler_id

  Rises-lower :
      (low low' high : ℕ) (es : List (ℕ × H)) → low' ≤ low → Rises low es high → Rises low' es high
  unfolding Rises
  Rises-lower low low' high [] h r = omega arith
  Rises-lower low low' high ((i, f) ∷ es) h (r, rs) = (omega arith, rs)

  Rises-append :
      (low high : ℕ) (h : H) (es : List (ℕ × H))
      → Rises low es high
      → Rises low (es ++ (high, h) ∷ []) (high + 1)
  unfolding Rises
  Rises-append low high h [] r = (r, omega arith)
  Rises-append low high h ((i, f) ∷ es) (r, rs) = (r, Rises-append (i + 1) high h es rs)

  Rises-remove_id :
      (id low high : ℕ) (es : List (ℕ × H)) → Rises low es high → Rises low (remove_id id es) high
  unfolding Rises remove_id
  Rises-remove_id id low high [] r = r
  Rises-remove_id id low high ((i, f) ∷ es) (r, rs) =
      let rest = Rises-remove_id id (i + 1) high es rs in
      elim (Bool-cases (i == id)) [
        | inl e ↦ rw (e, remove_id) (Rises-lower (i + 1) low high _ (omega arith) rest)
        | inr e ↦ rw (e, remove_id) (r, rest)
      ]

  pub apply-IsValid : (op : Op H) (r : Registry H) → IsValid r → IsValid (apply op r)
  unfolding apply on unsubscribe
  apply-IsValid (subscribes h) r v = Rises-append 0 r.next_handler_id h r.event_handlers v
  apply-IsValid (unsubscribes id) r v = Rises-remove_id id 0 r.next_handler_id r.event_handlers v

  apply_all-IsValid : (ops : List (Op H)) (r : Registry H) → IsValid r → IsValid (apply_all ops r)
  unfolding apply_all
  apply_all-IsValid [] r v = v
  apply_all-IsValid (op ∷ ops) r v = apply_all-IsValid ops (apply op r) (apply-IsValid op r v)

  Rises-le : (low high : ℕ) (es : List (ℕ × H)) → Rises low es high → low ≤ high
  unfolding Rises
  Rises-le low high [] r = r
  Rises-le low high ((i, f) ∷ es) (r, rs) = ground (arith, Rises-le (i + 1) high es rs)

  -- the laws of `handler_of`
  handler_of-remove_id :
      (id j : ℕ) (es : List (ℕ × H))
      → handler_of j (remove_id id es) ≡ (if id == j then none else handler_of j es)
  unfolding handler_of remove_id
  handler_of-remove_id id j [] = ground arith
  handler_of-remove_id id j ((i, f) ∷ es) = ground (arith, handler_of-remove_id id j es)

  handler_of-append :
      (id j : ℕ) (h : H) (es : List (ℕ × H))
      → id ≢ j
      → handler_of j (es ++ (id, h) ∷ []) ≡ handler_of j es
  unfolding handler_of
  handler_of-append id j h [] n = ground arith
  handler_of-append id j h ((i, f) ∷ es) n = ground (arith, handler_of-append id j h es n)

  handler_of-fresh :
      (low high : ℕ) (h : H) (es : List (ℕ × H))
      → Rises low es high
      → handler_of high (es ++ (high, h) ∷ []) ≡ some h
  unfolding handler_of Rises
  handler_of-fresh low high h [] r = rw (==_refl high) refl
  handler_of-fresh low high h ((i, f) ∷ es) (r, rs) =
      ground (arith, Rises-le (i + 1) high es rs, handler_of-fresh (i + 1) high h es rs)

  -- what the operations on the registry leave of a subscription
  unfoldable pub cancels : ℕ → List (Op H) → Bool
  cancels id [] = false
  cancels id (subscribes h ∷ ops) = cancels id ops
  cancels id (unsubscribes j ∷ ops) = (j == id) || cancels id ops

  apply_all-keeps :
      (ops : List (Op H)) (id : ℕ) (h : H) (r : Registry H)
      → cancels id ops ≡ false
      → id < r.next_handler_id
      → handler_of id r.event_handlers ≡ some h
      → handler_of id (apply_all ops r).event_handlers ≡ some h
  unfolding cancels apply_all apply on unsubscribe
  apply_all-keeps [] id h r c b e = e
  apply_all-keeps (subscribes f ∷ ops) id h r c b e =
      apply_all-keeps ops id h _ c (omega arith)
        (handler_of-append r.next_handler_id id f r.event_handlers (omega arith) ∙ e)
  apply_all-keeps (unsubscribes j ∷ ops) id h r c b e =
      apply_all-keeps ops id h _ (ground arith) b
        (handler_of-remove_id j id r.event_handlers ∙ ground arith)

  -- From a valid registry, whatever subscriptions are made and cancelled after `on h`, as long as the
  -- new one is not cancelled, its handler is registered under its id; its own cancel then removes it
  -- and leaves the handler of every other id as it was.
  pub subscription_exact :
      (h : H) (r : Registry H) (ops : List (Op H))
      → IsValid r
      → cancels (on h r).0 ops ≡ false
      → let id = (on h r).0 in
        let later = apply_all ops (on h r).1 in
        (handler_of id later.event_handlers ≡ some h)
        × (handler_of id (unsubscribe id later).event_handlers ≡ none)
        × ((j : ℕ)
            → id ≢ j
            → handler_of j (unsubscribe id later).event_handlers
              ≡ handler_of j later.event_handlers)
  unfolding on unsubscribe
  subscription_exact h r ops v c =
      let id = r.next_handler_id in
      let later = apply_all ops (on h r).1 in
      (
        apply_all-keeps ops id h (on h r).1 c (omega arith)
            (handler_of-fresh 0 id h r.event_handlers v),
        handler_of-remove_id id id later.event_handlers ∙ rw (==_refl id) refl,
        λ j n. handler_of-remove_id id j later.event_handlers ∙ ground arith,
      )

  module _ {Event : Type 0} (run : H → Event → Registry H → Run H) where
    call_each-called :
        (hs : List H) (event : Event) (r : Registry H)
        → IsValid r
        → ((call_each run hs event r).0 ≡ hs) × IsValid (call_each run hs event r).1
    unfolding call_each call_handler
    call_each-called [] event r v = (refl, v)
    call_each-called (h ∷ hs) event r v =
        let after = apply_all (run h event r).ops r in
        let (p, q) = call_each-called hs event after (apply_all-IsValid (run h event r).ops r v) in
        (ap (λ l. h ∷ l) p, q)

    -- From a valid registry, an event calls the handlers that are registered when it comes, each of
    -- them once, in the order of their subscriptions, whatever they throw and whichever subscriptions
    -- they make or cancel, and leaves a valid registry.
    pub dispatch-called :
        (event : Event) (r : Registry H)
        → IsValid r
        → ((dispatch run event r).0 ≡ map (λ e. e.1) r.event_handlers)
          × IsValid (dispatch run event r).1
    unfolding dispatch
    dispatch-called event r v = call_each-called (map (λ e. e.1) r.event_handlers) event r v
