-- ===== src/Runtime/Outcomes.antt =====
-- src/client.cpp: what `start` comes to.
use copilot_cpp.Prelude.{true, false, Option, none, some, ◌≡◌, refl, ◌∙◌, ◌⊎◌, inl, inr, Bool-cases}
use copilot_cpp.Prelude.Int.{ℤ}
use copilot_cpp.Prelude.Exec.{Result, ok, err, continue, ◌>>=◌, modify}
use copilot_cpp.Json.{Json}
use copilot_cpp.Launch.{Options}
use copilot_cpp.Runtime.{connected, connecting, error, Failure, World, Link, Extras, Io}
use copilot_cpp.Runtime.Protocol.{
  member, in_range, accept_version, accept_reported, check_version, versioned, handshake,
  verify_protocol_version,
}
use copilot_cpp.Runtime.Startup.{start, establish, reach_runtime, introduce, is_connected, or_error}
use copilot_cpp.Runtime.Frames.{Keeps-introduce}

module _ {J : Json} (W : World J) where
  open J use {Value}

  -- the negotiated version is one that the client supports
  abbrev Negotiated : Link J → Type 0
  Negotiated l = (v : ℤ) × (l.protocol_version ≡ some v) × (in_range v ≡ true)

  -- what holds of the fields when nothing is thrown
  Ensures : {A : Type 0} → (Link J → Type 0) → Result (Failure J) A × Link J → Type 0
  Ensures P (ok a, l) = P l
  Ensures P (err e, l) = Unit {0}

  Ensures-continue :
      {A B : Type 0} (P Q : Link J → Type 0) (r : Result (Failure J) A) (l : Link J)
      (f : A → Io J B)
      → Ensures P (r, l)
      → ((a : A) (l' : Link J) → P l' → Ensures Q (f a l'))
      → Ensures Q (continue r f l)
  unfolding Ensures
  Ensures-continue P Q (ok a) l f h k = k a l h
  Ensures-continue P Q (err e) l f h k = tt

  Ensures-bind :
      {A B : Type 0} (P Q : Link J → Type 0) (m : Io J A) (f : A → Io J B) (l : Link J)
      → Ensures P (m l)
      → ((a : A) (l' : Link J) → P l' → Ensures Q (f a l'))
      → Ensures Q ((m >>= f) l)
  Ensures-bind P Q m f l = Ensures-continue P Q (m l).0 (m l).1 f

  abbrev Anything : Link J → Type 0
  Anything l = Unit {0}

  Ensures-of :
      {A : Type 0} (P : Link J → Type 0) (r : Result (Failure J) A × Link J) → P r.1 → Ensures P r
  unfolding Ensures
  Ensures-of P (ok a, l) h = h
  Ensures-of P (err e, l) h = tt

  Ensures-Anything : {A : Type 0} (r : Result (Failure J) A × Link J) → Ensures Anything r
  unfolding Ensures
  Ensures-Anything (ok a, l) = tt
  Ensures-Anything (err e, l) = tt

  Ensures-accept_version :
      (v : Value) (n : Option ℤ) (l : Link J) → Ensures Negotiated (accept_version J W v n l)
  unfolding Ensures accept_version
  Ensures-accept_version v none l = tt
  Ensures-accept_version v (some n) l = elim (Bool-cases (in_range n)) [
    | inl e ↦ rw (e, accept_version) (n, refl, e)
    | inr e ↦ rw (e, accept_version) tt
  ]

  Ensures-accept_reported :
      (v : Value) (w : Option Value) (l : Link J) → Ensures Negotiated (accept_reported J W v w l)
  unfolding Ensures accept_reported
  Ensures-accept_reported v none l = tt
  Ensures-accept_reported v (some w) l = Ensures-accept_version v (J.get_int w) l

  Ensures-verify_protocol_version :
      (x : Extras J) (l : Link J) → Ensures Negotiated (verify_protocol_version J W x l)
  unfolding verify_protocol_version check_version
  Ensures-verify_protocol_version x l =
      Ensures-bind Anything Negotiated (handshake J W x) _ l (Ensures-Anything _) λ first l' _.
        Ensures-bind Anything Negotiated (versioned J W first) _ l' (Ensures-Anything _)
          λ response l'' _.
            Ensures-accept_reported response (member J response "protocolVersion") l''

  abbrev Connected : Link J → Type 0
  Connected l = (l.state ≡ connected) × Negotiated l

  mark_connected : Io J (Unit {0})
  mark_connected = modify (λ l. record l { state = connected })

  Ensures-introduce :
      (x : Extras J) (l : Link J) → Negotiated l → Ensures Negotiated (introduce J W x l)
  Ensures-introduce x l (v, e, q) =
      Ensures-of Negotiated (introduce J W x l)
        (v, Keeps-introduce (λ l'. l'.protocol_version) W (λ n more l'. refl) x l ∙ e, q)

  Ensures-establish :
      (o : Options) (x : Extras J) (l : Link J) → Ensures Connected (establish J W o x l)
  unfolding establish mark_connected Ensures
  Ensures-establish o x l =
      Ensures-bind Anything Connected (reach_runtime J W o x) _ l (Ensures-Anything _) λ _ l1 _.
        Ensures-bind Negotiated Connected (verify_protocol_version J W x) _ l1
          (Ensures-verify_protocol_version x l1)
          λ _ l2 h.
            Ensures-bind Negotiated Connected (introduce J W x) (λ _. mark_connected) l2
              (Ensures-introduce x l2 h) λ _ l3 k. (refl, k)

  Ensures-outcome :
      (r : Result (Failure J) (Unit {0}) × Link J)
      → Ensures Connected r
      → (((or_error J W r).0 ≡ ok tt) × Connected (or_error J W r).1)
        ⊎ ((e : Failure J) × ((or_error J W r).0 ≡ err e) × ((or_error J W r).1.state ≡ error))
  unfolding Ensures or_error
  Ensures-outcome (ok tt, l) h = inl (refl, h)
  Ensures-outcome (err e, l) h = inr (e, refl, refl)

  -- A client that is not connected is connected after a `start` that throws nothing, and the version
  -- it has negotiated is one of those it supports; after a `start` that throws it is in its error state.
  pub start-outcome :
      (o : Options) (x : Extras J) (l : Link J)
      → is_connected J W l.state ≡ false
      → (((start J W o x l).0 ≡ ok tt) × Connected (start J W o x l).1)
        ⊎ ((e : Failure J) × ((start J W o x l).0 ≡ err e) × ((start J W o x l).1.state ≡ error))
  unfolding start
  start-outcome o x l idle =
      rw (idle, start) (Ensures-outcome _ (Ensures-establish o x (record l { state = connecting })))
