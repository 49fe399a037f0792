-- ===== src/Inference/Exchanges/Cancellation.antt =====
-- src/request_handler.cpp: the exchanges that cancel_all reaches.
use copilot_cpp.Prelude.{
  ℕ, zero, suc, true, Option, none, some, String, List, [], ◌∷◌, ◌++◌, ◌≡◌, refl, ap, ◌∙◌,
  Bool-cases, Option-cases, inl, inr, All,
}
use copilot_cpp.Prelude.Exec.{Result, ok, err, continue}
use copilot_cpp.Inference.Exchanges.{
  Exchange, Bridge, Call, closes, update, mark_cancelled, Io, exchange_at, websocket_at,
  cancel_exchange, cancel_each, cancel_all,
}

-- An exchange that is cancelled, if there is one of this number.
abbrev pub Stopped : List Exchange → ℕ → Type 0
Stopped es n = elim (exchange_at n es) [ none ↦ Unit | some e ↦ e.is_cancelled ≡ true ]

Stopped-update :
    (n k : ℕ) (es : List Exchange) → Stopped es n → Stopped (update k mark_cancelled es) n
Stopped-update n k [] h = tt
Stopped-update zero zero (e ∷ es) h = refl
Stopped-update zero (suc k) (e ∷ es) h = h
Stopped-update (suc n) zero (e ∷ es) h = h
Stopped-update (suc n) (suc k) (e ∷ es) h = Stopped-update n k es h

Stopped-same : (n : ℕ) (es : List Exchange) → Stopped (update n mark_cancelled es) n
Stopped-same n [] = tt
Stopped-same zero (e ∷ es) = refl
Stopped-same (suc n) (e ∷ es) = Stopped-same n es

module _ (throws : Call → Option String) where
  -- an exception is that of the close
  abbrev Thrown : ℕ → String → Result String (Unit {0}) → Type 0
  Thrown n reason (ok u) = Unit
  Thrown n reason (err what) = throws (closes n (some reason)) ≡ some what

  cancel_exchange_lem :
      (n : ℕ) (reason : String) (b : Bridge)
      → let (r, b') = cancel_exchange throws n reason b in
        (b'.exchanges ≡ update n mark_cancelled b.exchanges)
        × (b'.pending ≡ b.pending)
        × Thrown n reason r
  unfolding cancel_exchange
  cancel_exchange_lem n reason b =
      let k : Bridge = record b { exchanges = update n mark_cancelled b.exchanges } in
      elim (Bool-cases (websocket_at n k)) [
        | inl e ↦ rw e (
          refl,
          refl,
          elim (Option-cases (throws (closes n (some reason)))) [
            | inl q ↦ rw q tt
            | inr (what, q) ↦ rw q q
          ],
        )
        | inr e ↦ rw e (refl, refl, tt)
      ]

  then_keeps :
      (n : ℕ) (r : Result String (Unit {0})) (b : Bridge) (rest : Io (Unit {0}))
      → ((b' : Bridge) → Stopped b'.exchanges n → Stopped (rest b').1.exchanges n)
      → Stopped b.exchanges n
      → Stopped (continue r (λ _. rest) b).1.exchanges n
  then_keeps n (ok u) b rest keeps h = keeps b h
  then_keeps n (err what) b rest keeps h = h

  -- a further exchange that is cancelled leaves the others cancelled
  cancel_each_keeps :
      (n : ℕ) (ps : List (String × ℕ)) (b : Bridge)
      → Stopped b.exchanges n
      → Stopped (cancel_each throws ps b).1.exchanges n
  unfolding cancel_each
  cancel_each_keeps n [] b h = h
  cancel_each_keeps n ((id, k) ∷ ps) b h =
      let (r, b') = cancel_exchange throws k "client disposed" b in
      let (e, same, thrown) = cancel_exchange_lem k "client disposed" b in
      then_keeps n r b' (cancel_each throws ps) (λ b''. cancel_each_keeps n ps b'')
        (rw e (Stopped-update n k b.exchanges h))

  -- What is cancelled when the loop ends: all exchanges if it returns; if it throws, those up to the
  -- one whose close threw.
  pub Cancelled : List (String × ℕ) → Result String (Unit {0}) → List Exchange → Type 0
  Cancelled ps (ok u) es = All (λ p. Stopped es p.1) ps
  Cancelled ps (err what) es =
      (before : List (String × ℕ)) × (id : String) × (n : ℕ) × (after : List (String × ℕ)) × (ps
        ≡ before ++ (id, n) ∷ after)
      × (throws (closes n (some "client disposed")) ≡ some what)
      × All (λ p. Stopped es p.1) (before ++ (id, n) ∷ [])

  Cancelled-cons :
      (id : String) (n : ℕ) (ps : List (String × ℕ)) (r : Result String (Unit {0}))
      (es : List Exchange)
      → Stopped es n
      → Cancelled ps r es
      → Cancelled ((id, n) ∷ ps) r es
  unfolding Cancelled
  Cancelled-cons id n ps (ok u) es h c = (h, c)
  Cancelled-cons id n ps (err what) es h (before, j, m, after, e, thrown, c) =
      ((id, n) ∷ before, j, m, after, ap (λ l. (id, n) ∷ l) e, thrown, (h, c))

  -- the loop goes on behind an exchange that is cancelled, if its close returned
  then_Cancelled :
      {pending : List (String × ℕ)} (id : String) (n : ℕ) (ps : List (String × ℕ))
      (r : Result String (Unit {0})) (b : Bridge)
      → (let (r', b') = cancel_each throws ps b in
          (b'.pending ≡ b.pending) × Cancelled ps r' b'.exchanges)
      → (Stopped b.exchanges n → Stopped (cancel_each throws ps b).1.exchanges n)
      → b.pending ≡ pending
      → Stopped b.exchanges n
      → Thrown n "client disposed" r
      → let (r', b') = continue r (λ _. cancel_each throws ps) b in
        (b'.pending ≡ pending) × Cancelled ((id, n) ∷ ps) r' b'.exchanges
  unfolding Cancelled
  then_Cancelled id n ps (ok u) b (kept, c) keeps same h thrown =
      (kept ∙ same, Cancelled-cons id n ps _ _ (keeps h) c)
  then_Cancelled id n ps (err what) b rest keeps same h thrown =
      (same, ([], id, n, ps, refl, thrown, (h, tt)))

  cancel_each-Cancelled :
      (ps : List (String × ℕ)) (b : Bridge)
      → let (r, b') = cancel_each throws ps b in
        (b'.pending ≡ b.pending) × Cancelled ps r b'.exchanges
  unfolding cancel_each Cancelled
  cancel_each-Cancelled [] b = (refl, tt)
  cancel_each-Cancelled ((id, n) ∷ ps) b =
      let (r, b') = cancel_exchange throws n "client disposed" b in
      let (e, same, thrown) = cancel_exchange_lem n "client disposed" b in
      then_Cancelled id n ps r b' (cancel_each-Cancelled ps b') (cancel_each_keeps n ps b') same
        (rw e (Stopped-same n b.exchanges)) thrown

  -- After `cancel_all`, no request is pending. If it returns, every exchange that was pending is
  -- cancelled. If it throws, this is the exception of the close of a WebSocket, and the exchanges up
  -- to that one, in the order of the loop, are cancelled.
  pub cancel_all-Cancelled :
      (b : Bridge)
      → let (r, b') = cancel_all throws b in (b'.pending ≡ []) × Cancelled b.pending r b'.exchanges
  unfolding cancel_all
  cancel_all-Cancelled b = cancel_each-Cancelled b.pending (record b { pending = [] })
