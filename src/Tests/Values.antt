-- ===== src/Tests/Values.antt =====
-- A JSON value type, to show that the laws of nlohmann::json can hold.
use copilot_cpp.Prelude.{
  ℕ, ◌≡◌, refl, ap, Bool, true, false, Option, none, some, String, List, [], ◌∷◌, ltb, ◌^◌, arith,
  is_some, if◌then◌else◌,
}
use copilot_cpp.Prelude.Text.{lookup, str_eq}
use copilot_cpp.Prelude.Int.{ℤ, pos, negsuc, Fits}
use copilot_cpp.Json.{Json, IsLawful}

mutual
  pub data Node : Type 0 where
    nothing : Node
    string : String → Node
    number : ℤ → Node
    flag : Bool → Node
    object_of : Fields → Node

  pub data Fields : Type 0 where
    no_fields : Fields
    field : String → Node → Fields → Fields

abbrev pub fields : List (String × Node) → Fields
fields [] = no_fields
fields ((k, v) ∷ m) = field k v (fields m)

abbrev field_of : String → Fields → Option Node
field_of k no_fields = none
field_of k (field j v m) = if str_eq j k then some v else field_of k m

abbrev fits : ℕ → ℤ → Bool
fits w (pos n) = ltb n (2 ^ w)
fits w (negsuc n) = ltb n (2 ^ w)

abbrev number_of : ℕ → Node → Option ℤ
number_of w (number n) = if fits w n then some n else none
number_of w _ = none

abbrev string_of : Node → Option String
string_of (string s) = some s
string_of _ = none

abbrev is_nothing : Node → Bool
is_nothing nothing = true
is_nothing _ = false

abbrev is_number : Node → Bool
is_number (number n) = true
is_number _ = false

abbrev member : Node → String → Option Node
member (object_of m) k = field_of k m
member _ k = none

abbrev is_object_of : Node → Bool
is_object_of (object_of m) = true
is_object_of _ = false

abbrev pub nodes : Json
nodes = record {
  Value = Node;
  null = nothing;
  text = string;
  integer = number;
  boolean = flag;
  array = λ vs. nothing;
  object = λ m. object_of (fields m);
  is_null = is_nothing;
  is_string = λ v. is_some (string_of v);
  is_integer = is_number;
  is_object = is_object_of;
  is_array = λ v. false;
  get_string = string_of;
  get_int64 = number_of 63;
  get_int = number_of 31;
  contains = λ v k. is_some (member v k);
  at = member;
}

field_of-fields : (m : List (String × Node)) (k : String) → field_of k (fields m) ≡ lookup k m
field_of-fields [] k = refl
field_of-fields ((j, v) ∷ m) k = ap (λ r. if str_eq j k then some v else r) (field_of-fields m k)

number_of-Fits : (w : ℕ) (n : ℤ) → Fits w n → number_of w (number n) ≡ some n
number_of-Fits w (pos n) h = ground (arith, h)
number_of-Fits w (negsuc n) h = ground (arith, h)

only_nothing : (v : Node) → is_nothing v ≡ true → v ≡ nothing
only_nothing nothing h = refl
only_nothing (string s) h = ground arith
only_nothing (number n) h = ground arith
only_nothing (flag b) h = ground arith
only_nothing (object_of m) h = ground arith

instance pub nodes-IsLawful : IsLawful nodes
nodes-IsLawful = record {
  is_null-null = refl;
  null_unique = only_nothing;
  is_null-text = λ s. refl;
  is_null-integer = λ n. refl;
  is_string-text = λ s. refl;
  is_string-integer = λ n. refl;
  is_integer-integer = λ n. refl;
  get_string-text = λ s. refl;
  get_int64-integer = number_of-Fits 63;
  get_int-integer = number_of-Fits 31;
  contains-object = λ m k. ap is_some (field_of-fields m k);
  at-object = field_of-fields;
}
