-- ===== src/Json/Laws.antt =====
-- nlohmann::json: the laws as lemmas, for an instance of `IsLawful`.
use copilot_cpp.Prelude.{◌≡◌, true, false, some, String, List, is_some}
use copilot_cpp.Prelude.Text.{lookup}
use copilot_cpp.Prelude.Int.{ℤ, Fits}
use copilot_cpp.Json.{Json, IsLawful}

module _ (J : Json) ⦃L : IsLawful J⦄ where
  pub is_null-null : Json.is_null J (Json.null J) ≡ true
  is_null-null = L.is_null-null

  pub null_unique : (v : Json.Value J) → Json.is_null J v ≡ true → v ≡ Json.null J
  null_unique = L.null_unique

  pub is_null-text : (s : String) → Json.is_null J (Json.text J s) ≡ false
  is_null-text = L.is_null-text

  pub is_null-integer : (n : ℤ) → Json.is_null J (Json.integer J n) ≡ false
  is_null-integer = L.is_null-integer

  pub is_string-text : (s : String) → Json.is_string J (Json.text J s) ≡ true
  is_string-text = L.is_string-text

  pub is_string-integer : (n : ℤ) → Json.is_string J (Json.integer J n) ≡ false
  is_string-integer = L.is_string-integer

  pub is_integer-integer : (n : ℤ) → Json.is_integer J (Json.integer J n) ≡ true
  is_integer-integer = L.is_integer-integer

  pub get_string-text : (s : String) → Json.get_string J (Json.text J s) ≡ some s
  get_string-text = L.get_string-text

  pub get_int64-integer : (n : ℤ) → Fits 63 n → Json.get_int64 J (Json.integer J n) ≡ some n
  get_int64-integer = L.get_int64-integer

  pub get_int-integer : (n : ℤ) → Fits 31 n → Json.get_int J (Json.integer J n) ≡ some n
  get_int-integer = L.get_int-integer

  pub contains-object :
      (m : List (String × Json.Value J)) (k : String)
      → Json.contains J (Json.object J m) k ≡ is_some (lookup k m)
  contains-object = L.contains-object

  pub at-object :
      (m : List (String × Json.Value J)) (k : String) → Json.at J (Json.object J m) k ≡ lookup k m
  at-object = L.at-object

-- Reading a value that the program built.
pub ruleset object_laws = (
  at-object, contains-object, is_null-text, is_null-integer, is_null-null, is_string-text,
  is_string-integer, is_integer-integer, get_string-text,
)
