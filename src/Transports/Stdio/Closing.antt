-- ===== src/Transports/Stdio/Closing.antt =====
-- transport_stdio.hpp: what `StdioTransport::close` closes, and what the closed transport does.
use copilot_cpp.Prelude.{
  ℕ, ◌+◌, ◌≡◌, refl, Bool, true, false, ◌&&◌, ◌||◌, Option, none, some, List, [], ◌∷◌, ◌==◌,
  if◌then◌else◌, arith,
}
use copilot_cpp.Prelude.Text.{Bytes}
use copilot_cpp.Prelude.Exec.{err}
use copilot_cpp.Transports.{System, closed}
use copilot_cpp.Transports.Stdio.{Stdio, Host, close_stdio, read, write}

-- how often a handle was closed
abbrev pub count : ℕ → List ℕ → ℕ
count n [] = 0
count n (m ∷ ms) = if n == m then count n ms + 1 else count n ms

abbrev pub is_handle : ℕ → Option ℕ → Bool
is_handle n none = false
is_handle n (some m) = n == m

-- whether the transport has the handle to close
abbrev pub to_close : ℕ → Stdio → Bool
to_close n t =
    t.open_ && (t.owns_handles && (is_handle n t.read_handle || is_handle n t.write_handle))

module _ {S : System} where
  count-close_stdio :
      (n : ℕ) (h : Host S)
      → count n (close_stdio h).closed_handles
        ≡ count n h.closed_handles + (if to_close n h.stdio then 1 else 0)
  unfolding close_stdio
  count-close_stdio n h =
      by_fields h.stdio.open_ h.stdio.owns_handles h.stdio.read_handle h.stdio.write_handle h.os
        h.closed_handles
    where
      by_fields :
          (o owns : Bool) (r w : Option ℕ) (os : S.State) (l : List ℕ)
          → let t : Stdio = record {
            read_handle = r;
            write_handle = w;
            owns_handles = owns;
            open_ = o;
          } in
            let k : Host S = record { stdio = t; os = os; closed_handles = l } in
            count n (close_stdio k).closed_handles ≡ count n l + (if to_close n t then 1 else 0)
      by_fields false owns r w os l = omega arith
      by_fields true false r w os l = omega arith
      by_fields true true none none os l = omega arith
      by_fields true true (some r) none os l = ground arith
      by_fields true true none (some w) os l = ground arith
      by_fields true true (some r) (some w) os l = ground arith

  close_stdio-shut : (h : Host S) → (close_stdio h).stdio.open_ ≡ false
  unfolding close_stdio
  close_stdio-shut h = ground arith

  -- Whatever is done with a closed transport: nothing.
  abbrev pub IsShut : Host S → Type 0
  IsShut h =
      ((close_stdio h).closed_handles ≡ h.closed_handles)
      × ((size : ℕ) → read size h ≡ (err closed, h))
      × ((bs : Bytes) → write bs h ≡ (err closed, h))

  closed-IsShut : (h : Host S) → h.stdio.open_ ≡ false → IsShut h
  unfolding close_stdio read write
  closed-IsShut h e = (rw e refl, (λ size. rw e refl), (λ bs. rw e refl))

  -- A close closes each handle that the open transport owns exactly once, also when it reads and
  -- writes the same handle, and no other; after it a further close closes nothing, and read and write
  -- throw ConnectionClosedError and change nothing.
  pub close_stdio_lem :
      (n : ℕ) (h : Host S)
      → (count n (close_stdio h).closed_handles
          ≡ count n h.closed_handles + (if to_close n h.stdio then 1 else 0))
        × IsShut (close_stdio h)
  close_stdio_lem n h = (count-close_stdio n h, closed-IsShut (close_stdio h) (close_stdio-shut h))
