-- ===== src/Transports/Tcp/Settling.antt =====
-- transport_tcp.hpp: what connect and close of `TcpTransport` leave open.
use copilot_cpp.Prelude.{
  ℕ, ◌+◌, ◌*◌, ◌≡◌, refl, ap, ◌∙◌, Bool, true, false, Bool-cases, inl, inr, Option, none, some,
  List, [], ◌∷◌, ◌==◌, ==_refl, length, arith,
}
use copilot_cpp.Prelude.Text.{Bytes}
use copilot_cpp.Prelude.Int.{ℤ}
use copilot_cpp.Prelude.Exec.{Result, ok, err, lift, continue, ◌>>=◌}
use copilot_cpp.Framing.Input.{Error}
use copilot_cpp.Transports.{Errno, System}
use copilot_cpp.Transports.Tcp.{
  Tcp, Host, ask, budget, close_fd, close_socket, close_tcp, try_each, resolved, adopt, connect,
  received, asked, read, is_reset,
}
use copilot_cpp.Transports.Tcp.Descriptors.{live, got, IsTidy, Opens, try_each-Opens}

module _ {S : System} where
  -- `close` closes the socket of an open transport.
  pub close_tcp-IsTidy :
      (base : List ℕ) (h : Host S)
      → IsTidy base h
      → ((close_tcp h).1.tcp.open_ ≡ false) × (live (close_tcp h).1.history ≡ base)
  unfolding close_tcp close_socket close_fd
  close_tcp-IsTidy base h e = by_fields h.tcp.open_ h.tcp.socket refl refl
    where
      by_fields :
          (b : Bool) (s : Option ℕ)
          → h.tcp.open_ ≡ b
          → h.tcp.socket ≡ s
          → ((close_tcp h).1.tcp.open_ ≡ false) × (live (close_tcp h).1.history ≡ base)
      by_fields true (some fd) p q = rw (p, q) (refl, rw (e, p, q, ==_refl fd) refl)
      by_fields true none p q = rw (p, q) (refl, rw (e, p, q) refl)
      by_fields false s p q = rw p (refl, rw (e, p) refl)

  -- What a connect leaves: on return an open transport, else a closed one; beside `base`, its socket
  -- alone is live.
  unfoldable pub Settled : List ℕ → Result Error (Unit {0}) → Host S → Type 0
  Settled base (ok _) h = (h.tcp.open_ ≡ true) × IsTidy base h
  Settled base (err e) h = (h.tcp.open_ ≡ false) × IsTidy base h

  adopt-Settled :
      (host : Bytes) (port : ℤ) (base : List ℕ) (h₀ : Host S) (r : Result Error (Option ℕ))
      (h : Host S)
      → h₀.tcp.open_ ≡ false
      → live h₀.history ≡ base
      → Opens got h₀ (r, h)
      → let (r', h') = continue r (adopt host port) h in Settled base r' h'
  unfolding adopt Settled Opens
  adopt-Settled host port base h₀ (ok none) h shut e (same, e') =
      let q : h.tcp.open_ ≡ false = ap (λ (t : Tcp). t.open_) same ∙ shut in (q, rw (q, e', e) refl)
  adopt-Settled host port base h₀ (ok (some fd)) h shut e (same, e') = (refl, rw (e', e) refl)
  adopt-Settled host port base h₀ (err x) h shut e p = elim p [ ]

  pub close_tcp-ok : (h : Host S) → (close_tcp h).0 ≡ ok tt
  unfolding close_tcp close_socket close_fd
  close_tcp-ok h = by_fields h.tcp.open_ h.tcp.socket refl refl
    where
      by_fields :
          (b : Bool) (s : Option ℕ) → h.tcp.open_ ≡ b → h.tcp.socket ≡ s → (close_tcp h).0 ≡ ok tt
      by_fields true (some fd) p q = rw (p, q) refl
      by_fields true none p q = rw (p, q) refl
      by_fields false s p q = rw p refl

  -- the rest of connect, once the names are resolved
  resolved-Settled :
      (host : Bytes) (port timeout_ms : ℤ) (base : List ℕ) (h : Host S)
      (found : Result ℤ (List S.Address))
      → h.tcp.open_ ≡ false
      → live h.history ≡ base
      → let (r, h') =
          (do
            addresses ← lift (resolved S found)
            start ← ask S.now
            fd ← try_each timeout_ms (start + budget timeout_ms * 1000) addresses
            adopt host port fd)
            h in
        Settled base r h'
  unfolding resolved Settled
  resolved-Settled host port timeout_ms base h (ok addresses) shut e =
      let k : Host S = record h { os = (S.now h.os).1 } in
      adopt-Settled host port base k _ _ shut e
        (try_each-Opens timeout_ms ((S.now h.os).0 + budget timeout_ms * 1000) addresses k)
  resolved-Settled host port timeout_ms base h (err status) shut e = (shut, rw (e, shut) refl)

  -- Whatever the system answers, a connect leaks no socket: if only the socket of an open transport is
  -- live beside the descriptors of others, then the same holds after it. On return the transport is
  -- open; when it throws, the transport is closed and only the descriptors of others are live.
  pub connect-Settled :
      (host : Bytes) (port timeout_ms : ℤ) (base : List ℕ) (h : Host S)
      → IsTidy base h
      → let (r, h') = connect host port timeout_ms h in Settled base r h'
  unfolding connect
  connect-Settled host port timeout_ms base h tidy =
      let k = (close_tcp h).1 in
      let (shut, e) = close_tcp-IsTidy base h tidy in
      rw (close_tcp-ok h) (
        resolved-Settled host port timeout_ms base
          (record k { os = (S.getaddrinfo host port k.os).1 }) (S.getaddrinfo host port k.os).0 shut
          e)

  pub received-end :
      (r : Result Errno Bytes) (h : Host S)
      → (received r h).0 ≡ ok []
      → ((received r h).1.tcp.open_ ≡ false) × ((received r h).1.history ≡ h.history)
  unfolding received
  received-end (ok []) h e = (refl, refl)
  received-end (ok (b ∷ bs)) h e =
      let some_bytes : (length (b ∷ bs) == 0) ≡ false = ground arith in
      absurd (let q = rw some_bytes at e in cc)
  received-end (err x) h e = elim (Bool-cases (is_reset S.platform x)) [
    | inl p ↦ rw p (refl, refl)
    | inr p ↦ absurd (let q = rw p at e in cc)
  ]

  pub read-open :
      (size : ℕ) (h : Host S)
      → h.tcp.open_ ≡ true
      → read size h
        ≡ received
            (S.read h.tcp.socket (asked S.platform size) h.os).0
            (record h { os = (S.read h.tcp.socket (asked S.platform size) h.os).1 })
  unfolding read
  read-open size h e = rw e refl
