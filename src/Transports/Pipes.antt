-- ===== src/Transports/Pipes.antt =====
-- transport_stdio.hpp: class `PipeTransport` over the pipes of a process, which it does not own. The
-- pipes are a parameter; what they throw is passed on.
use copilot_cpp.Prelude.{ℕ, ◌≡◌, refl, ap, ◌∙◌, Bool, true, false, List, [], ◌∷◌, if◌then◌else◌}
use copilot_cpp.Prelude.Text.{Bytes}
use copilot_cpp.Prelude.Exec.{Result, ok, err, Exec}
use copilot_cpp.Framing.Input.{Error}
use copilot_cpp.Transports.{closed}

pub record Pipes : Type 1 where
  pub State : Type 0
  pub read : ℕ → Exec Error State Bytes
  pub write : Bytes → Exec Error State (Unit {0})

pub data Operation : Type 0 where
  reads : ℕ → Operation
  writes : Bytes → Operation
  closes : Operation

module _ (P : Pipes) where
  pub record Host : Type 0 where
    pub open_ : Bool
    pub pipes : P.State

module _ {P : Pipes} where
  -- `try { … } catch (const std::exception&) { open_ = false; throw; }`
  abbrev pub guarded : {A : Type 0} → Result Error A × P.State → Result Error A × Host P
  guarded (ok a, s) = (ok a, record { open_ = true; pipes = s })
  guarded (err e, s) = (err e, record { open_ = false; pipes = s })

  unfoldable pub read : ℕ → Exec Error (Host P) Bytes
  read size h = if h.open_ then guarded (P.read size h.pipes) else (err closed, h)

  unfoldable pub write : Bytes → Exec Error (Host P) (Unit {0})
  write bs h = if h.open_ then guarded (P.write bs h.pipes) else (err closed, h)

  unfoldable pub close_pipes : Host P → Host P
  close_pipes h = record h { open_ = false }

  unfoldable pub perform : Operation → Host P → Host P
  unfolding read write close_pipes
  perform (reads size) h = (read size h).1
  perform (writes bs) h = (write bs h).1
  perform closes h = close_pipes h

  abbrev pub perform_all : List Operation → Host P → Host P
  perform_all [] h = h
  perform_all (o ∷ os) h = perform_all os (perform o h)

  perform-shut : (o : Operation) (h : Host P) → h.open_ ≡ false → perform o h ≡ h
  unfolding perform read write close_pipes
  perform-shut (reads size) h e = rw e refl
  perform-shut (writes bs) h e = rw e refl
  perform-shut closes h e = rw e refl

  perform_all-shut : (os : List Operation) (h : Host P) → h.open_ ≡ false → perform_all os h ≡ h
  perform_all-shut [] h e = refl
  perform_all-shut (o ∷ os) h e = ap (perform_all os) (perform-shut o h e) ∙ perform_all-shut os h e

module _ (P : Pipes) where
  guarded-shut :
      {A : Type 0} (r : Result Error A) (s : P.State) (e : Error)
      → (guarded {P = P} (r, s)).0 ≡ err e
      → (guarded {P = P} (r, s)).1.open_ ≡ false
  guarded-shut (ok a) s e p = absurd cc
  guarded-shut (err x) s e p = refl

module _ {P : Pipes} where
  write-shut :
      (bs : Bytes) (h : Host P) (e : Error) → (write bs h).0 ≡ err e → (write bs h).1.open_ ≡ false
  unfolding write
  write-shut bs h e p = by_open h.open_ refl p
    where
      by_open :
          (b : Bool)
          → h.open_ ≡ b
          → (if b then guarded (P.write bs h.pipes) else (err closed, h)).0 ≡ err e
          → (if b then guarded (P.write bs h.pipes) else (err closed, h)).1.open_ ≡ false
      by_open true q p = guarded-shut P (P.write bs h.pipes).0 (P.write bs h.pipes).1 e p
      by_open false q p = q

  -- Once a write has thrown, no later operation reaches the pipes or changes the transport.
  pub write-throws :
      (bs : Bytes) (os : List Operation) (h : Host P) (e : Error)
      → (write bs h).0 ≡ err e
      → perform_all os (write bs h).1 ≡ (write bs h).1
  write-throws bs os h e p = perform_all-shut os (write bs h).1 (write-shut bs h e p)
