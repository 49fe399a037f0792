-- ===== src/Transports/Stdio.antt =====
-- transport_stdio.hpp: class `StdioTransport`, beside the system's state and a history of the handles
-- that it closed, the newest first.
pub mod Closing
use copilot_cpp.Prelude.{
  ℕ, ◌%◌, ◌^◌, Bool, true, false, Option, none, some, List, [], ◌∷◌, ◌++◌, length, ◌==◌,
  if◌then◌else◌,
}
use copilot_cpp.Prelude.Text.{Bytes, codes}
use copilot_cpp.Prelude.Int.{ℤ, pos}
use copilot_cpp.Prelude.Exec.{Result, ok, err, Exec, pure, raise, modify, ◌>>=◌, ◌>>◌}
use copilot_cpp.Framing.Input.{Error, transport_error}
use copilot_cpp.Transports.{
  Platform, windows, posix, Errno, epipe, ebadf, error_broken_pipe, error_no_data, Call, close,
  System, closed, maxdword, chunk, send_all,
}

-- no handle stands for `invalid_handle()`
pub record Stdio : Type 0 where
  pub read_handle : Option ℕ
  pub write_handle : Option ℕ
  pub owns_handles : Bool
  pub open_ : Bool

-- the failures of a read that count as the end of the stream
abbrev pub is_end : Platform → Errno → Bool
is_end windows error_broken_pipe = true
is_end windows error_no_data = true
is_end windows _ = false
is_end posix epipe = true
is_end posix ebadf = true
is_end posix _ = false

-- the size that `ReadFile` and `read` are asked for
abbrev pub asked : Platform → ℕ → ℤ
asked windows size = pos (size % 2 ^ 32)
asked posix size = pos size

abbrev read_failed : Platform → Bytes
read_failed windows = codes "ReadFile failed with error "
read_failed posix = codes "read() failed: "

abbrev write_failed : Platform → Bytes
write_failed windows = codes "WriteFile failed with error "
write_failed posix = codes "write() failed: "

abbrev pub same_handle : Option ℕ → Option ℕ → Bool
same_handle none none = true
same_handle none (some n) = false
same_handle (some m) none = false
same_handle (some m) (some n) = m == n

module _ (S : System) where
  pub record Host : Type 0 where
    pub stdio : Stdio
    pub os : S.State
    pub closed_handles : List ℕ

  abbrev pub Io : Type 0 → Type 0
  Io = Exec Error Host

module _ {S : System} where
  abbrev pub ask : {A : Type 0} → (S.State → A × S.State) → Io S A
  ask f h = let (a, s) = f h.os in (ok a, record h { os = s })

  abbrev pub set_open : Bool → Host S → Host S
  set_open b h = record h {
    stdio = record {
      read_handle = h.stdio.read_handle;
      write_handle = h.stdio.write_handle;
      owns_handles = h.stdio.owns_handles;
      open_ = b;
    };
  }

  -- read: what the system gave
  unfoldable pub received : Result Errno Bytes → Io S Bytes
  received (err e) =
      if is_end S.platform e
      then (do modify (set_open false); pure [])
      else raise (transport_error (read_failed S.platform ++ S.describe e))
  received (ok bs) = do if length bs == 0 then modify (set_open false) else pure tt; pure bs

  -- read
  unfoldable pub read : ℕ → Io S Bytes
  unfolding received
  read size h =
      if h.stdio.open_
      then (ask (S.read h.stdio.read_handle (asked S.platform size)) >>= received) h
      else raise closed h

  abbrev pub sent : Result Errno ℕ → Io S ℕ
  sent (ok n) = pure n
  sent (err e) = raise (transport_error (write_failed S.platform ++ S.describe e))

  -- write: one call of `WriteFile` or `::write`
  unfoldable pub put : Bytes → Io S ℕ
  put bs h = (ask (S.write h.stdio.write_handle bs) >>= sent) h

  -- write
  unfoldable pub write : Bytes → Io S (Unit {0})
  unfolding put
  write bs h =
      if h.stdio.open_
      then send_all put (chunk S.platform maxdword) (length bs) bs h
      else raise closed h

  -- close: one handle, if it is valid
  abbrev pub close_handle : Option ℕ → Host S → Host S
  close_handle none h = h
  close_handle (some n) h = record h {
    os = S.act (close n) h.os;
    closed_handles = n ∷ h.closed_handles;
  }

  abbrev pub close_owned : Bool → Option ℕ → Option ℕ → Host S → Host S
  close_owned false r w h = h
  close_owned true r w h =
      let h' = close_handle r h in if same_handle w r then h' else close_handle w h'

  abbrev pub forget : Host S → Host S
  forget h = record h {
    stdio = record {
      read_handle = none;
      write_handle = none;
      owns_handles = h.stdio.owns_handles;
      open_ = false;
    };
  }

  -- close
  unfoldable pub close_stdio : Host S → Host S
  close_stdio h =
      if h.stdio.open_
      then forget (
          close_owned h.stdio.owns_handles h.stdio.read_handle h.stdio.write_handle
            (set_open false h))
      else set_open false h
