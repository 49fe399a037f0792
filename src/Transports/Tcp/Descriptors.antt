-- ===== src/Transports/Tcp/Descriptors.antt =====
-- transport_tcp.hpp: which of the descriptors that `TcpTransport` opens are closed again.
use copilot_cpp.Prelude.{
  ℕ, ◌≡◌, refl, ap, ◌∙◌, Bool, true, false, Bool-cases, inl, inr, Option, none, some, List, [], ◌∷◌,
  ◌++◌, ltb, ◌==◌, if◌then◌else◌, ==_refl, arith,
}
use copilot_cpp.Prelude.Int.{ℤ}
use copilot_cpp.Prelude.Exec.{Result, ok, err, continue, ◌>>=◌}
use copilot_cpp.Framing.Input.{Error}
use copilot_cpp.Transports.{Errno, System, set_blocking}
use copilot_cpp.Transports.Tcp.{
  Event, opened, closed_fd, waits, Host, Io, budget, close_fd, open_socket, wait, completed, keep,
  attempt, or_next, try_each,
}

abbrev pub erase : ℕ → List ℕ → List ℕ
erase n [] = []
erase n (m ∷ ms) = if n == m then ms else m ∷ erase n ms

-- The descriptors that were opened and not closed, the newest event of the history first.
abbrev pub live : List Event → List ℕ
live [] = []
live (opened n ∷ events) = n ∷ live events
live (closed_fd n ∷ events) = erase n (live events)
live (waits start us ∷ events) = live events

-- the descriptor that an open transport holds
abbrev pub held : Bool → Option ℕ → List ℕ
held true (some fd) = fd ∷ []
held true none = []
held false s = []

abbrev pub got : Option ℕ → List ℕ
got none = []
got (some fd) = fd ∷ []

module _ {S : System} where
  -- Beside the descriptors `base` of others, just the socket of an open transport is live.
  abbrev pub IsTidy : List ℕ → Host S → Type 0
  IsTidy base h = live h.history ≡ held h.tcp.open_ h.tcp.socket ++ base

  -- an action that never throws, leaves the transport's fields and adds its result to what is live
  unfoldable pub Opens : {A : Type 0} → (A → List ℕ) → Host S → Result Error A × Host S → Type 0
  Opens f h (ok a, h') = (h'.tcp ≡ h.tcp) × (live h'.history ≡ f a ++ live h.history)
  Opens f h (err e, h') = ⊥

  wait-Opens : (deadline fd : ℕ) (h : Host S) → Opens (λ _. []) h (wait deadline fd h)
  unfolding wait Opens
  wait-Opens deadline fd h = ground arith

  completed-Opens :
      (timeout_ms : ℤ) (deadline fd : ℕ) (r : Option Errno) (h : Host S)
      → Opens (λ _. []) h (completed timeout_ms deadline fd r h)
  unfolding completed Opens
  completed-Opens timeout_ms deadline fd none h = (refl, refl)
  completed-Opens timeout_ms deadline fd (some e) h = ground (arith, wait-Opens deadline fd h)

  -- The descriptor `fd`, just opened, is the result or is closed.
  keep-Opens :
      (fd : ℕ) (b : Bool) (h h₀ : Host S)
      → h.tcp ≡ h₀.tcp
      → live h.history ≡ fd ∷ live h₀.history
      → Opens got h₀ (keep fd b h)
  unfolding keep close_fd Opens
  keep-Opens fd true h h₀ same e = (same, e)
  keep-Opens fd false h h₀ same e = (same, rw (e, ==_refl fd) refl)

  after_completed :
      (fd : ℕ) (h h₀ : Host S) (r : Result Error Bool) (h' : Host S)
      → h.tcp ≡ h₀.tcp
      → live h.history ≡ fd ∷ live h₀.history
      → Opens (λ _. []) h (r, h')
      → Opens got h₀ (continue r (keep fd) h')
  unfolding Opens
  after_completed fd h h₀ (ok b) h' same e (same', e') =
      keep-Opens fd b h' h₀ (same' ∙ same) (e' ∙ e)
  after_completed fd h h₀ (err x) h' same e p = elim p [ ]

  pub attempt-Opens :
      (timeout_ms : ℤ) (deadline : ℕ) (a : S.Address) (fd : Option ℕ) (h h₀ : Host S)
      → h.tcp ≡ h₀.tcp
      → live h.history ≡ got fd ++ live h₀.history
      → Opens got h₀ (attempt timeout_ms deadline a fd h)
  unfolding attempt Opens
  attempt-Opens timeout_ms deadline a none h h₀ same e = (same, e)
  attempt-Opens timeout_ms deadline a (some fd) h h₀ same e =
      elim (Bool-cases (ltb 0 (budget timeout_ms))) [
        | inl p ↦ rw p (from (S.act (set_blocking false fd) h.os))
        | inr p ↦ rw p (from h.os)
      ]
    where
      from :
          (s : S.State)
          → let (r, s') = S.connect fd a s in
            let k : Host S = record h { os = s' } in
            Opens got h₀ ((completed timeout_ms deadline fd r >>= keep fd) k)
      from s =
          let k : Host S = record h { os = (S.connect fd a s).1 } in
          after_completed fd k h₀ _ _ same e
            (completed-Opens timeout_ms deadline fd (S.connect fd a s).0 k)

  after_attempt :
      (rest : Io S (Option ℕ)) (h₀ : Host S) (r : Result Error (Option ℕ)) (h' : Host S)
      → ((h : Host S) → Opens got h (rest h))
      → Opens got h₀ (r, h')
      → Opens got h₀ (continue r (or_next rest) h')
  unfolding Opens
  after_attempt rest h₀ (ok (some fd)) h' ih p = p
  after_attempt rest h₀ (ok none) h' ih (same, e) = moved (rest h') (ih h')
    where
      moved : (o : Result Error (Option ℕ) × Host S) → Opens got h' o → Opens got h₀ o
      moved (ok fd, h'') (same', e') = (same' ∙ same, e' ∙ ap (λ l. got fd ++ l) e)
      moved (err x, h'') p = p
  after_attempt rest h₀ (err x) h' ih p = elim p [ ]

  pub try_each-Opens :
      (timeout_ms : ℤ) (deadline : ℕ) (addresses : List S.Address) (h : Host S)
      → Opens got h (try_each timeout_ms deadline addresses h)
  unfolding try_each open_socket Opens
  try_each-Opens timeout_ms deadline [] h = (refl, refl)
  try_each-Opens timeout_ms deadline (a ∷ addresses) h =
      after_attempt _ h _ _ (try_each-Opens timeout_ms deadline addresses)
        (opened_first (S.socket a h.os).0 (S.socket a h.os).1)
    where
      opened_first :
          (fd : Option ℕ) (s : S.State)
          → Opens got h (
              attempt timeout_ms deadline a fd (record h {
                os = s;
                history = elim fd [ none ↦ h.history | some n ↦ opened n ∷ h.history ];
              }))
      opened_first none s =
          attempt-Opens timeout_ms deadline a none (record h { os = s }) h refl refl
      opened_first (some n) s =
          attempt-Opens timeout_ms deadline a (some n)
            (record h { os = s; history = opened n ∷ h.history }) h refl refl
