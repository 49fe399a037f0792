-- ===== src/Directory.antt =====
-- src/client.cpp: the sessions of a client by their ids, as create_session, resume_session and
-- delete_session change them. A session object is named by a number.
pub mod Config
pub mod Building
pub mod Registration
pub mod Models
use Prim.Native.String.{◌++◌ as str_append}
use copilot_cpp.Prelude.{
  ℕ, Bool, true, false, Option, none, some, String, List, [], ◌∷◌, ◌≡◌, refl, if◌then◌else◌,
  Bool-cases, inl, inr,
}
use copilot_cpp.Prelude.Text.{str_eq, lookup}
use copilot_cpp.Prelude.Exec.{Result, ok, err}
use copilot_cpp.Json.{Json}

-- `sessions_`
abbrev pub Book : Type 0
Book = List (String × ℕ)

-- `sessions_.erase(id)`
unfoldable pub unregister : String → Book → Book
unregister id [] = []
unregister id ((key, s) ∷ book) =
    let rest = unregister id book in if str_eq key id then rest else (key, s) ∷ rest

-- `sessions_[id] = session`
unfoldable pub enter : String → ℕ → Book → Book
unfolding unregister
enter id s book = (id, s) ∷ unregister id book

-- the test at the beginning: connected?, `auto_start`, and the exception of `start`
unfoldable pub ensure_connected : Bool → Bool → Option String → Result String (Unit {0})
ensure_connected true auto thrown = ok tt
ensure_connected false true none = ok tt
ensure_connected false true (some what) = err what
ensure_connected false false thrown = err "Client not connected. Call start() first."

module _ (J : Json) where
  open J use {Value, get_string, at}

  -- What the calls come to, and what the reading of a response's capabilities throws.
  pub record Server : Type 0 where
    pub reply : Result String Value
    pub interest : Option String
    pub capabilities : Value → Option String

  abbrev pub text_of : Option Value → Option String
  text_of none = none
  text_of (some v) = get_string v

  -- create_session: the id of the response
  unfoldable pub name_session :
      String → ℕ → Option String → Value → Book → Result String (String × Value) × Book
  unfolding unregister enter
  name_session id s none response book = (err "json::exception", unregister id book)
  name_session id s (some returned) response book = (
    ok (returned, response),
    if str_eq returned id then book else enter returned s (unregister id book),
  )

  -- create_session: the `try` with its `catch (...)`
  unfoldable pub register_session :
      String → ℕ → Result String Value → Book → Result String (String × Value) × Book
  unfolding unregister name_session
  register_session id s (err what) book = (err what, unregister id book)
  register_session id s (ok response) book =
      name_session id s (text_of (at response "sessionId")) response book

  abbrev pub or_interest : Bool → Option String → Result String (Unit {0})
  or_interest true (some what) = err what
  or_interest true none = ok tt
  or_interest false thrown = ok tt

  -- what follows: the capabilities are read, and the interest is registered if there is a handler
  unfoldable pub settle_session :
      Server → Bool → Result String (String × Value) → Result String (Unit {0})
  settle_session v has_auth (err what) = err what
  settle_session v has_auth (ok (id, response)) = elim (Server.capabilities v response) [
    | some what ↦ err what
    | none ↦ or_interest has_auth (Server.interest v)
  ]

  -- create_session, on a client that is connected
  unfoldable pub create_connected :
      Server → Bool → String → ℕ → Book → Result String (Unit {0}) × Book
  unfolding register_session enter settle_session
  create_connected v has_auth id s book =
      let (named, book') = register_session id s (Server.reply v) (enter id s book) in
      (settle_session v has_auth named, book')

  -- resume_session, from the response on
  unfoldable pub resume_named :
      Server → Bool → ℕ → Option String → Value → Book → Result String (Unit {0}) × Book
  unfolding enter
  resume_named v has_auth s none response book = (err "json::type_error", book)
  resume_named v has_auth s (some returned) response book = elim (Server.capabilities v response) [
    | some what ↦ (err what, book)
    | none ↦ (or_interest has_auth (Server.interest v), enter returned s book)
  ]

  unfoldable pub resume_reply :
      Server → Bool → ℕ → Result String Value → Book → Result String (Unit {0}) × Book
  unfolding resume_named
  resume_reply v has_auth s (err what) book = (err what, book)
  resume_reply v has_auth s (ok response) book =
      resume_named v has_auth s (text_of (at response "sessionId")) response book

  -- what is done only when the client is connected
  abbrev pub when_connected :
      Result String (Unit {0})
      → (Book → Result String (Unit {0}) × Book)
      → Book
      → Result String (Unit {0}) × Book
  when_connected (ok u) f book = f book
  when_connected (err what) f book = (err what, book)

  module _ (connected auto_start : Bool) (start : Option String) where
    -- create_session
    unfoldable pub create_session :
        Server → Bool → String → ℕ → Book → Result String (Unit {0}) × Book
    unfolding create_connected ensure_connected
    create_session v has_auth id s =
        when_connected (ensure_connected connected auto_start start)
          (create_connected v has_auth id s)

    -- resume_session
    unfoldable pub resume_session : Server → Bool → ℕ → Book → Result String (Unit {0}) × Book
    unfolding resume_reply ensure_connected
    resume_session v has_auth s =
        when_connected (ensure_connected connected auto_start start)
          (resume_reply v has_auth s (Server.reply v))
