-- ===== src/Extensions/Factories.antt =====
-- src/factory.cpp, src/session.cpp: the factories of a session.
use Prim.Native.String.{◌++◌ as str_append}
use copilot_cpp.Prelude.{
  ◌≡◌, refl, Bool, true, false, ◌&&◌, not, Option, none, some, String, List, [], ◌∷◌, All,
  if◌then◌else◌,
}
use copilot_cpp.Prelude.Text.{str_eq, lookup, eq_refl}
use copilot_cpp.Prelude.Exec.{Result, ok, err}
use copilot_cpp.Prelude.Try.{◌>>=◌, or_throw}
use copilot_cpp.Json.{Json, IsLawful}
use copilot_cpp.Extensions.{Fault, other, Handler, call, Members, value_of}

module _ (J : Json) where
  open J use {Value, text, object, get_string, is_object, contains, at}

  pub record FactoryHandle : Type 0 where
    pub meta : Value
    pub run : Handler Value Value

  abbrev is_name : Option String → Bool
  is_name none = false
  is_name (some s) = not (str_eq s "")

  abbrev text_at : Value → String → Option String
  text_at v key = elim (at v key) [ none ↦ none | some w ↦ get_string w ]

  abbrev with_run : Value → Handler Value Value → Result Fault FactoryHandle
  with_run meta none = err (other "factory run handler is required")
  with_run meta (some f) = ok (record { meta = meta; run = some f })

  -- define_factory
  unfoldable pub define_factory : Value → Handler Value Value → Result Fault FactoryHandle
  define_factory meta run =
      if is_object meta && (contains meta "name" && is_name (text_at meta "name"))
      then with_run meta run
      else err (other "factory metadata requires a non-empty name")

  -- `meta.at("name").get<std::string>()`
  abbrev pub name_of : FactoryHandle → Result Fault String
  name_of f = or_throw (text_at f.meta "name") (other "json::type_error")

  abbrev pub Factories : Type 0
  Factories = List (String × FactoryHandle)

  -- register_factories: pointers that are null and metadata without a name are passed over
  unfoldable pub register_factories :
      List (Option FactoryHandle) → Factories → Result Fault Factories
  register_factories [] m = ok m
  register_factories (none ∷ fs) m = register_factories fs m
  register_factories (some f ∷ fs) m =
      let named = (do name ← name_of f; register_factories fs ((name, f) ∷ m)) in
      let unnamed = register_factories fs m in if contains f.meta "name" then named else unnamed

  abbrev pub result_answer : Result Fault Value → Result Fault Value
  result_answer (ok v) = ok (object (("result", v) ∷ []))
  result_answer (err e) = err e

  abbrev run_factory : String → String → Option FactoryHandle → Members J → Result Fault Value
  run_factory session_id name none params = err (other (str_append "Unknown factory " name))
  run_factory session_id name (some f) params =
      result_answer (call f.run (object (("sessionId", text session_id) ∷ params)))

  -- handle_factory_request, for parameters that are an object
  unfoldable pub handle_factory_request :
      String → Factories → String → Members J → Result Fault Value
  handle_factory_request session_id factories method params =
      if str_eq method "factory.abort"
      then ok (object [])
      else (value_of J (object params) "name" >>= λ name.
          run_factory session_id name (lookup name factories) params)

module _ {J : Json} where
  open J use {Value, text, object, contains}

  -- a factory that is passed over, or whose name is another one
  abbrev pub HasOtherName : String → Option (FactoryHandle J) → Type 0
  HasOtherName name none = Unit
  HasOtherName name (some f) =
      (s : String) × (name_of J f ≡ ok s)
      × (contains f.meta "name" ≡ true)
      × (str_eq s name ≡ false)

  register_factories-last :
      (fs : List (Option (FactoryHandle J))) (m : Factories J) (name : String) (f : FactoryHandle J)
      → All (HasOtherName name) fs
      → lookup name m ≡ some f
      → (m' : Factories J) × (register_factories J fs m ≡ ok m') × (lookup name m' ≡ some f)
  unfolding register_factories
  register_factories-last [] m name f others e = (m, refl, e)
  register_factories-last (none ∷ fs) m name f others e =
      register_factories-last fs m name f others.1 e
  register_factories-last (some g ∷ fs) m name f ((s, named, there, differs), others) e =
      rw (there, named) (register_factories-last fs ((s, g) ∷ m) name f others (rw differs e))

  -- A request runs the factory that was registered last under its name: the answer is what the
  -- factory's function gives for the request with the id of the session, whatever the request says of
  -- it, and an exception of the function is passed on.
  pub handle_factory_request-runs :
      (L : IsLawful J) (session_id method name : String) (f : FactoryHandle J)
      (later : List (Option (FactoryHandle J))) (m : Factories J) (params : Members J)
      → str_eq method "factory.abort" ≡ false
      → name_of J f ≡ ok name
      → contains f.meta "name" ≡ true
      → All (HasOtherName name) later
      → lookup "name" params ≡ some (text name)
      → (m' : Factories J) × (register_factories J (some f ∷ later) m ≡ ok m')
        × (handle_factory_request J session_id m' method params
            ≡ result_answer J (call f.run (object (("sessionId", text session_id) ∷ params))))
  unfolding register_factories handle_factory_request
  handle_factory_request-runs L session_id method name f later m params runs named there others
        at_name =
      let (m', e, found) =
        register_factories-last later ((name, f) ∷ m) name f others (rw (eq_refl name) refl) in
      (
        m',
        rw (there, named) e,
        rw
            (
              runs,
              IsLawful.at-object L params "name",
              at_name,
              IsLawful.get_string-text L name,
              found,
            )
            refl,
      )
