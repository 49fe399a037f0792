-- ===== src/Directory/Registration.antt =====
-- src/client.cpp: which sessions are registered after create_session.
use copilot_cpp.Prelude.{
  ℕ, Bool, true, false, Option, none, some, String, [], ◌∷◌, ◌≡◌, refl, ◌∙◌, sym, ap, if◌then◌else◌,
  Bool-cases, inl, inr,
}
use copilot_cpp.Prelude.Text.{str_eq, lookup, eq_iff}
use copilot_cpp.Prelude.Exec.{Result, ok, err}
use copilot_cpp.Json.{Json}
use copilot_cpp.Directory.{
  Book, unregister, enter, Server, text_of, name_session, register_session, create_connected,
}

lookup-unregister_same : (id : String) (book : Book) → lookup id (unregister id book) ≡ none
unfolding unregister
lookup-unregister_same id [] = refl
lookup-unregister_same id ((k, s) ∷ book) = elim (Bool-cases (str_eq k id)) [
  | inl e ↦ rw e (lookup-unregister_same id book)
  | inr e ↦ rw (e, unregister, e) (lookup-unregister_same id book)
]

lookup-unregister_other :
    (id key : String) (book : Book)
    → str_eq id key ≡ false
    → lookup key (unregister id book) ≡ lookup key book
unfolding unregister
lookup-unregister_other id key [] h = refl
lookup-unregister_other id key ((k, s) ∷ book) h = elim (Bool-cases (str_eq k id)) [
  | inl e ↦
      let other : str_eq k key ≡ false = ap (λ x. str_eq x key) ((eq_iff k id).0 e) ∙ h in
      rw (e, unregister, other) (lookup-unregister_other id key book h)
  | inr e ↦
      rw (e, unregister)
        (ap (λ r. if str_eq k key then some s else r) (lookup-unregister_other id key book h))
]

lookup-unregister :
    (id key : String) (book : Book)
    → lookup key (unregister id book) ≡ (if str_eq id key then none else lookup key book)
lookup-unregister id key book = elim (Bool-cases (str_eq id key)) [
  | inl e ↦ rw e (
      ap (λ k. lookup k (unregister id book)) (sym ((eq_iff id key).0 e))
      ∙ lookup-unregister_same id book)
  | inr e ↦ rw e (lookup-unregister_other id key book e)
]

absorb :
    {A : Type 0} (b : Bool) (x y z : A)
    → (if b then x else (if b then y else z)) ≡ (if b then x else z)
absorb true x y z = refl
absorb false x y z = refl

lookup-enter :
    (id key : String) (s : ℕ) (book : Book)
    → lookup key (enter id s book) ≡ (if str_eq id key then some s else lookup key book)
unfolding enter
lookup-enter id key s book =
    ap (λ r. if str_eq id key then some s else r) (lookup-unregister id key book)
    ∙ absorb (str_eq id key) (some s) none (lookup key book)

lookup-withdrawn :
    (id key : String) (s : ℕ) (book : Book)
    → lookup key (unregister id (enter id s book))
      ≡ (if str_eq id key then none else lookup key book)
lookup-withdrawn id key s book =
    lookup-unregister id key (enter id s book)
    ∙ ap (λ r. if str_eq id key then none else r) (lookup-enter id key s book)
    ∙ absorb (str_eq id key) none (some s) (lookup key book)

module _ (J : Json) where
  open J use {Value, at}

  -- the id that a response gives, if the call does not throw and its id is a string
  abbrev pub returned_id : Result String Value → Option String
  returned_id (err what) = none
  returned_id (ok response) = text_of J (at response "sessionId")

  -- who is registered under `key`
  abbrev pub registered : Option String → String → ℕ → String → Book → Option ℕ
  registered none id s key book = if str_eq id key then none else lookup key book
  registered (some r) id s key book =
      if str_eq r key then some s else (if str_eq id key then none else lookup key book)

  name_session-registered :
      (id : String) (s : ℕ) (r : Option String) (response : Value) (book : Book) (key : String)
      → lookup key (name_session J id s r response (enter id s book)).1 ≡ registered r id s key book
  unfolding name_session
  name_session-registered id s none response book key = lookup-withdrawn id key s book
  name_session-registered id s (some r) response book key = elim (Bool-cases (str_eq r id)) [
    | inl e ↦
        rw (e, (eq_iff r id).0 e)
          (lookup-enter id key s book
            ∙ sym (absorb (str_eq id key) (some s) none (lookup key book)))
    | inr e ↦ rw e (
        lookup-enter r key s (unregister id (enter id s book))
        ∙ ap (λ o. if str_eq r key then some s else o) (lookup-withdrawn id key s book))
  ]

  register_session-registered :
      (id : String) (s : ℕ) (reply : Result String Value) (book : Book) (key : String)
      → lookup key (register_session J id s reply (enter id s book)).1
        ≡ registered (returned_id reply) id s key book
  unfolding register_session
  register_session-registered id s (err what) book key = lookup-withdrawn id key s book
  register_session-registered id s (ok response) book key =
      name_session-registered id s (text_of J (at response "sessionId")) response book key

  -- After create_session under the id `id`, on a client that is connected, whatever is thrown later: if the runtime has returned an
  -- id, the new session is registered under it; no other session is registered under `id`, even if
  -- one was before and the call has failed; every other id has the session that it had.
  pub create_connected-registered :
      (v : Server J) (has_auth : Bool) (id : String) (s : ℕ) (book : Book) (key : String)
      → lookup key (create_connected J v has_auth id s book).1
        ≡ registered (returned_id (Server.reply v)) id s key book
  unfolding create_connected
  create_connected-registered v has_auth id s book key =
      register_session-registered id s (Server.reply v) book key
