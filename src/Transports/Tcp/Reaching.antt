-- ===== src/Transports/Tcp/Reaching.antt =====
-- transport_tcp.hpp: `TcpTransport::connect` with an address that can be reached among those that the
-- host's name resolves to.
use copilot_cpp.Prelude.{
  ℕ, ◌-◌, ◌≡◌, refl, Bool, true, false, Bool-cases, ◌⊎◌, inl, inr, Option, none, some, List, [],
  ◌∷◌, ◌++◌, ltb,
}
use copilot_cpp.Prelude.Text.{Bytes}
use copilot_cpp.Prelude.Int.{ℤ, pos}
use copilot_cpp.Prelude.Exec.{Result, ok, err, continue, ◌>>=◌}
use copilot_cpp.Framing.Input.{Error}
use copilot_cpp.Transports.{Errno, set_blocking, System}
use copilot_cpp.Transports.Tcp.{
  opened, is_would_block, wait, Host, Io, budget, close_tcp, open_socket, completed, keep, attempt,
  or_next, try_each, resolved, adopt, connect,
}
use copilot_cpp.Transports.Tcp.Descriptors.{Opens, got, attempt-Opens}
use copilot_cpp.Transports.Tcp.Settling.{close_tcp-ok}

-- The call of `connect` on a socket succeeds at once; or there is a timeout, the connection is in
-- progress, and every `select` on the socket, however short its timeout, finds it ready and without
-- an exception, and `SO_ERROR` is 0.
abbrev pub Connects : (S : System) → ℤ → ℕ → S.Address → S.State → Type 0
Connects S timeout_ms fd a s =
    ((S.connect fd a s).0 ≡ none)
    ⊎ ((e : Errno) × ((S.connect fd a s).0 ≡ some e)
        × (is_would_block S.platform e ≡ true)
        × (ltb 0 (budget timeout_ms) ≡ true)
        × ((us : ℕ) (s' : S.State)
            → ((S.select fd us s').0.ready ≡ true) × ((S.select fd us s').0.except ≡ false))
        × ((s' : S.State) → (S.so_error fd s').0 ≡ pos 0))

-- Whatever has happened, a socket for the address can be had, and it is connected at once.
abbrev pub Reaches : (S : System) → ℤ → S.Address → Type 0
Reaches S timeout_ms a =
    (s : S.State)
    → (fd : ℕ) × ((S.socket a s).0 ≡ some fd) × ((s' : S.State) → Connects S timeout_ms fd a s')

module _ {S : System} where
  abbrev Finds : Result Error (Option ℕ) × Host S → Type 0
  Finds o = (fd : ℕ) × (o.0 ≡ ok (some fd))

  wait-ready :
      (deadline fd : ℕ) (h : Host S)
      → ((us : ℕ) (s : S.State)
          → ((S.select fd us s).0.ready ≡ true) × ((S.select fd us s).0.except ≡ false))
      → ((s : S.State) → (S.so_error fd s).0 ≡ pos 0)
      → (wait deadline fd h).0 ≡ ok true
  unfolding wait
  wait-ready deadline fd h ready no_error =
      let (start, s) = S.now h.os in
      let (is_ready, no_except) = ready (deadline - start) s in
      rw (is_ready, no_except, no_error) refl

  completed-reached :
      (timeout_ms : ℤ) (deadline fd : ℕ) (a : S.Address) (s : S.State) (h : Host S)
      → Connects S timeout_ms fd a s
      → (completed timeout_ms deadline fd (S.connect fd a s).0 h).0 ≡ ok true
  unfolding completed
  completed-reached timeout_ms deadline fd a s h (inl e) = rw e refl
  completed-reached timeout_ms deadline fd a s h (inr (x, e, blocks, timed, ready, no_error)) =
      rw (e, blocks, timed) (wait-ready deadline fd h ready no_error)

  keep-true :
      (fd : ℕ) (r : Result Error Bool × Host S)
      → r.0 ≡ ok true
      → (continue r.0 (keep fd) r.1).0 ≡ ok (some fd)
  unfolding keep
  keep-true fd (r, h) e = rw e refl

  attempt-reached :
      (timeout_ms : ℤ) (deadline fd : ℕ) (a : S.Address) (h : Host S)
      → ((s : S.State) → Connects S timeout_ms fd a s)
      → (attempt timeout_ms deadline a (some fd) h).0 ≡ ok (some fd)
  unfolding attempt
  attempt-reached timeout_ms deadline fd a h reached =
      elim (Bool-cases (ltb 0 (budget timeout_ms))) [
        | inl p ↦ rw p (from (record h { os = S.act (set_blocking false fd) h.os }))
        | inr p ↦ rw p (from h)
      ]
    where
      from :
          (k : Host S)
          → let r =
              completed timeout_ms deadline fd
                (S.connect fd a k.os).0
                (record k { os = (S.connect fd a k.os).1 }) in
            (continue r.0 (keep fd) r.1).0 ≡ ok (some fd)
      from k = keep-true fd _ (
          completed-reached timeout_ms deadline fd a k.os
            (record k { os = (S.connect fd a k.os).1 }) (reached k.os))

  -- an attempt never throws, so the loop goes on after one that failed
  after_failed :
      (rest : Io S (Option ℕ)) (h₀ : Host S) (r : Result Error (Option ℕ)) (h' : Host S)
      → Opens got h₀ (r, h')
      → ((h : Host S) → Finds (rest h))
      → Finds (continue r (or_next rest) h')
  unfolding Opens
  after_failed rest h₀ (ok (some fd)) h' p found = (fd, refl)
  after_failed rest h₀ (ok none) h' p found = found h'
  after_failed rest h₀ (err e) h' p found = elim p [ ]

  try_each-Finds :
      (timeout_ms : ℤ) (deadline : ℕ) (before after : List S.Address) (a : S.Address) (h : Host S)
      → Reaches S timeout_ms a
      → Finds (try_each timeout_ms deadline (before ++ a ∷ after) h)
  unfolding try_each open_socket attempt
  try_each-Finds timeout_ms deadline [] after a h reached =
      let (fd, e, connects) = reached h.os in
      (fd, rw e (rw (attempt-reached timeout_ms deadline fd a _ connects) refl))
  try_each-Finds timeout_ms deadline (b ∷ before) after a h reached =
      from (S.socket b h.os).0 (S.socket b h.os).1
        (λ h'. try_each-Finds timeout_ms deadline before after a h' reached)
    where
      from :
          (fd : Option ℕ) (s : S.State)
          → ((h' : Host S) → Finds (try_each timeout_ms deadline (before ++ a ∷ after) h'))
          → Finds (
              (attempt timeout_ms deadline b fd
                  >>= or_next (try_each timeout_ms deadline (before ++ a ∷ after)))
                (record h {
                  os = s;
                  history = elim fd [ none ↦ h.history | some n ↦ opened n ∷ h.history ];
                }))
      from none s ih = ih (record h { os = s })
      from (some n) s ih =
          let k : Host S = record h { os = s; history = opened n ∷ h.history } in
          after_failed _ (record h { os = s }) _ _
            (attempt-Opens timeout_ms deadline b (some n) k (record h { os = s }) refl refl) ih

  adopt-found :
      (host : Bytes) (port : ℤ) (r : Result Error (Option ℕ)) (h : Host S)
      → (fd : ℕ) × (r ≡ ok (some fd))
      → (continue r (adopt host port) h).0 ≡ ok tt
  unfolding adopt
  adopt-found host port r h (fd, e) = rw e refl

  -- If the host's name resolves to a list with an address that is connected at once, connect
  -- returns, whatever the addresses before it do. Connected at once means that, in every state of the
  -- system, a socket can be had for it, and the call of `connect` succeeds, or there is a timeout, the
  -- call is in progress, and every `select` on the socket, however short, finds it ready, without an
  -- exception and with an `SO_ERROR` of 0.
  pub connect-reached :
      (host : Bytes) (port timeout_ms : ℤ) (before after : List S.Address) (a : S.Address)
      (h : Host S)
      → ((s : S.State) → (S.getaddrinfo host port s).0 ≡ ok (before ++ a ∷ after))
      → Reaches S timeout_ms a
      → (connect host port timeout_ms h).0 ≡ ok tt
  unfolding connect resolved
  connect-reached host port timeout_ms before after a h names reached =
      let k = (close_tcp h).1 in
      rw (close_tcp-ok h, names)
        (adopt-found host port _ _ (try_each-Finds timeout_ms _ before after a _ reached))
