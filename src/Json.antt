-- ===== src/Json.antt =====
-- nlohmann::json as the program uses it: a parameter, since the library is not part of the
-- repository. The laws are what its documentation says of the operations named.
pub mod Laws
use copilot_cpp.Prelude.{◌≡◌, Bool, true, false, Option, some, String, List, is_some}
use copilot_cpp.Prelude.Text.{lookup}
use copilot_cpp.Prelude.Int.{ℤ, Fits}

pub record Json : Type 1 where
  pub Value : Type 0
  -- `nullptr`, strings, integers, Booleans, arrays, and objects with their members
  pub null : Value
  pub text : String → Value
  pub integer : ℤ → Value
  pub boolean : Bool → Value
  pub array : List Value → Value
  pub object : List (String × Value) → Value
  -- `is_null`, `is_string`, `is_number_integer`, `is_array`, `is_object`
  pub is_null : Value → Bool
  pub is_string : Value → Bool
  pub is_integer : Value → Bool
  pub is_array : Value → Bool
  pub is_object : Value → Bool
  -- `get<std::string>`, `get<int64_t>`, `get<int>`: none where a `json::type_error` is thrown
  pub get_string : Value → Option String
  pub get_int64 : Value → Option ℤ
  pub get_int : Value → Option ℤ
  -- `contains(key)`, and `at(key)`: none where a `json::exception` is thrown
  pub contains : Value → String → Bool
  pub at : Value → String → Option Value

-- The documented laws.
pub record IsLawful (J : Json) : Type 0 where
  pub is_null-null : Json.is_null J (Json.null J) ≡ true
  pub null_unique : (v : Json.Value J) → Json.is_null J v ≡ true → v ≡ Json.null J
  pub is_null-text : (s : String) → Json.is_null J (Json.text J s) ≡ false
  pub is_null-integer : (n : ℤ) → Json.is_null J (Json.integer J n) ≡ false
  pub is_string-text : (s : String) → Json.is_string J (Json.text J s) ≡ true
  pub is_string-integer : (n : ℤ) → Json.is_string J (Json.integer J n) ≡ false
  pub is_integer-integer : (n : ℤ) → Json.is_integer J (Json.integer J n) ≡ true
  pub get_string-text : (s : String) → Json.get_string J (Json.text J s) ≡ some s
  pub get_int64-integer : (n : ℤ) → Fits 63 n → Json.get_int64 J (Json.integer J n) ≡ some n
  pub get_int-integer : (n : ℤ) → Fits 31 n → Json.get_int J (Json.integer J n) ≡ some n
  pub contains-object :
      (m : List (String × Json.Value J)) (k : String)
      → Json.contains J (Json.object J m) k ≡ is_some (lookup k m)
  pub at-object :
      (m : List (String × Json.Value J)) (k : String) → Json.at J (Json.object J m) k ≡ lookup k m
