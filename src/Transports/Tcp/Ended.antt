-- ===== src/Transports/Tcp/Ended.antt =====
-- transport_tcp.hpp: the socket of a `TcpTransport` that has met the end of its stream, through all that
-- the transport does later.
use copilot_cpp.Prelude.{
  ℕ, zero, suc, ◌≡◌, refl, sym, ap, ◌∙◌, true, false, Bool-cases, some, inl, inr, List, [], ◌∷◌,
  ◌++◌, length, take, drop, ◌==◌, if◌then◌else◌, append_assoc,
}
use copilot_cpp.Prelude.Text.{Bytes}
use copilot_cpp.Prelude.Int.{ℤ}
use copilot_cpp.Prelude.Exec.{Result, ok, err, Exec, raise, continue, ◌>>=◌}
use copilot_cpp.Framing.Input.{Error}
use copilot_cpp.Transports.{Errno, System, closed, chunk, int_max, send_all}
use copilot_cpp.Transports.Tcp.{
  Tcp, Host, ask, asked, close_tcp, connect, received, set_open, read, put, sent, write, is_reset,
}
use copilot_cpp.Transports.Tcp.Descriptors.{live, held, IsTidy}
use copilot_cpp.Transports.Tcp.Settling.{
  close_tcp-IsTidy, Settled, connect-Settled, received-end, read-open,
}

-- A call of the transport; its destructor closes it.
pub data Use : Type 0 where
  reads : ℕ → Use
  writes : Bytes → Use
  connects : Bytes → ℤ → ℤ → Use
  closes : Use

module _ {S : System} where
  -- the transport after a call, whether it returns or throws
  unfoldable pub perform : Use → Host S → Host S
  unfolding read write connect close_tcp
  perform (reads size) h = (read size h).1
  perform (writes bs) h = (write bs h).1
  perform (connects host port timeout_ms) h = (connect host port timeout_ms h).1
  perform closes h = (close_tcp h).1

  abbrev pub perform_all : List Use → Host S → Host S
  perform_all [] h = h
  perform_all (u ∷ us) h = perform_all us (perform u h)

  -- the fields and the descriptors are as they were
  abbrev Keeps : Host S → Host S → Type 0
  Keeps h h' = (h'.tcp ≡ h.tcp) × (h'.history ≡ h.history)

  after_sent :
      (r : Result Errno ℕ) (k : Host S) (rest : ℕ → Exec Error (Host S) (Unit {0})) (h : Host S)
      → ((n : ℕ) → Keeps h (rest n k).1)
      → Keeps h k
      → Keeps h (let (x, k') = sent r k in continue x rest k').1
  after_sent (ok n) k rest h on_ok on_err = on_ok n
  after_sent (err e) k rest h on_ok on_err = on_err

  send_all-Keeps :
      (fuel : ℕ) (bs : Bytes) (h : Host S)
      → Keeps h (send_all put (chunk S.platform int_max) fuel bs h).1
  unfolding send_all put
  send_all-Keeps fuel [] h = (refl, refl)
  send_all-Keeps zero (b ∷ bs) h = (refl, refl)
  send_all-Keeps (suc fuel) (b ∷ bs) h =
      let (r, s) =
        S.write h.tcp.socket (take (chunk S.platform int_max (length (b ∷ bs))) (b ∷ bs)) h.os in
      let k : Host S = record h { os = s } in
      after_sent r k (λ n. send_all put (chunk S.platform int_max) fuel (drop n (b ∷ bs))) h
        (λ n. send_all-Keeps fuel (drop n (b ∷ bs)) k) (refl, refl)

  Keeps-IsTidy : (base : List ℕ) (h h' : Host S) → Keeps h h' → IsTidy base h → IsTidy base h'
  Keeps-IsTidy base h h' (t, e) tidy =
      rw e (tidy ∙ ap (λ (c : Tcp). held c.open_ c.socket ++ base) (sym t))

  -- Beside the descriptors `kept`, the socket of an open transport and perhaps others are live.
  abbrev Holds : List ℕ → Host S → Type 0
  Holds kept h = (others : List ℕ) × IsTidy (others ++ kept) h

  close_tcp-Holds : (kept : List ℕ) (h : Host S) → Holds kept h → Holds kept (close_tcp h).1
  close_tcp-Holds kept h (others, tidy) =
      let (shut, e) = close_tcp-IsTidy (others ++ kept) h tidy in (others, rw shut e)

  Settled-IsTidy :
      (base : List ℕ) (r : Result Error (Unit {0})) (h : Host S) → Settled base r h → IsTidy base h
  unfolding Settled
  Settled-IsTidy base (ok u) h (live_open, tidy) = tidy
  Settled-IsTidy base (err e) h (shut, tidy) = tidy

  -- a socket that the transport no longer counts as its own is one of the others
  shut-Holds : (kept : List ℕ) (h : Host S) → Holds kept h → Holds kept (set_open false h)
  shut-Holds kept h (others, tidy) = (
    held h.tcp.open_ h.tcp.socket ++ others,
    tidy ∙ sym (append_assoc (held h.tcp.open_ h.tcp.socket) others kept),
  )

  received-Holds :
      (kept : List ℕ) (r : Result Errno Bytes) (h : Host S)
      → Holds kept h
      → Holds kept (received r h).1
  unfolding received
  received-Holds kept (ok bs) h holds = elim (Bool-cases (length bs == 0)) [
    | inl e ↦ rw e (shut-Holds kept h holds)
    | inr e ↦ rw e holds
  ]
  received-Holds kept (err x) h holds = elim (Bool-cases (is_reset S.platform x)) [
    | inl e ↦ rw e (shut-Holds kept h holds)
    | inr e ↦ rw e holds
  ]

  write-open :
      (bs : Bytes) (h : Host S)
      → h.tcp.open_ ≡ true
      → write bs h ≡ send_all put (chunk S.platform int_max) (length bs) bs h
  unfolding write
  write-open bs h e = rw e refl

  write-shut : (bs : Bytes) (h : Host S) → h.tcp.open_ ≡ false → (write bs h).1 ≡ h
  unfolding write
  write-shut bs h e =
      ap
        (λ b.
          (if b
            then send_all put (chunk S.platform int_max) (length bs) bs h
            else raise closed h).1)
        e

  read-shut : (size : ℕ) (h : Host S) → h.tcp.open_ ≡ false → (read size h).1 ≡ h
  unfolding read
  read-shut size h e =
      ap
        (λ b.
          (if b
            then (ask (S.read h.tcp.socket (asked S.platform size)) >>= received) h
            else raise closed h).1)
        e

  write-Holds : (kept : List ℕ) (bs : Bytes) (h : Host S) → Holds kept h → Holds kept (write bs h).1
  write-Holds kept bs h (others, tidy) = elim (Bool-cases h.tcp.open_) [
    | inl e ↦ (
      others,
      rw (write-open bs h e) (
          Keeps-IsTidy (others ++ kept) h
            (send_all put (chunk S.platform int_max) (length bs) bs h).1
            (send_all-Keeps (length bs) bs h) tidy),
    )
    | inr e ↦ rw (write-shut bs h e) (others, tidy)
  ]

  read-Holds : (kept : List ℕ) (n : ℕ) (h : Host S) → Holds kept h → Holds kept (read n h).1
  read-Holds kept n h holds = elim (Bool-cases h.tcp.open_) [
    | inl e ↦ rw (read-open n h e) (
        received-Holds kept (S.read h.tcp.socket (asked S.platform n) h.os).0
          (record h { os = (S.read h.tcp.socket (asked S.platform n) h.os).1 }) holds)
    | inr e ↦ rw (read-shut n h e) holds
  ]

  perform-Holds : (kept : List ℕ) (u : Use) (h : Host S) → Holds kept h → Holds kept (perform u h)
  unfolding perform
  perform-Holds kept (reads n) h holds = read-Holds kept n h holds
  perform-Holds kept (writes bs) h holds = write-Holds kept bs h holds
  perform-Holds kept (connects host port timeout_ms) h (others, tidy) = (
    others,
    Settled-IsTidy (others ++ kept) (connect host port timeout_ms h).0
        (connect host port timeout_ms h).1
        (connect-Settled host port timeout_ms (others ++ kept) h tidy),
  )
  perform-Holds kept closes h holds = close_tcp-Holds kept h holds

  perform_all-Holds :
      (kept : List ℕ) (us : List Use) (h : Host S) → Holds kept h → Holds kept (perform_all us h)
  perform_all-Holds kept [] h holds = holds
  perform_all-Holds kept (u ∷ us) h holds =
      perform_all-Holds kept us (perform u h) (perform-Holds kept u h holds)

  -- A finding: once a read of an open transport has met the end of the stream, its socket stays live
  -- whatever calls follow, in any order: reads, writes, new connects and closes, of which the
  -- destructor is one. The descriptors of others stay live beside it.
  pub read-leaks :
      (size fd : ℕ) (base : List ℕ) (h : Host S) (us : List Use)
      → h.tcp ≡ record { socket = some fd; open_ = true }
      → IsTidy base h
      → (read size h).0 ≡ ok []
      → let h' = perform_all us (read size h).1 in
        (others : List ℕ) × (live h'.history ≡ others ++ fd ∷ base)
  read-leaks size fd base h us e tidy ended =
      let live_open : h.tcp.open_ ≡ true = ap (λ (t : Tcp). t.open_) e in
      let (r, s) = S.read h.tcp.socket (asked S.platform size) h.os in
      let k : Host S = record h { os = s } in
      let (shut, same) =
        received-end r k (sym (ap (λ o. o.0) (read-open size h live_open)) ∙ ended) in
      let tidy' : IsTidy (fd ∷ base) (received r k).1 =
        rw shut (ap live same ∙ tidy ∙ ap (λ (t : Tcp). held t.open_ t.socket ++ base) e) in
      let started : Holds (fd ∷ base) (read size h).1 =
        rw (read-open size h live_open) ([], tidy') in
      let (others, kept) = perform_all-Holds (fd ∷ base) us (read size h).1 started in
      let h' = perform_all us (read size h).1 in
      (held h'.tcp.open_ h'.tcp.socket ++ others, kept ∙ sym (append_assoc _ others (fd ∷ base)))
