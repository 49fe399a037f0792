-- ===== src/Tools.antt =====
-- tool_builder.hpp: the types of a tool's parameters, their schemas, and how an argument is read from
-- the JSON of a call. A C++ type is a shape; the values of a shape are a type of the model.
pub mod Building
pub mod Structs
pub mod Functions
pub mod Schemas
pub mod Extraction
pub mod Invariant
pub mod Calls
use copilot_cpp.Prelude.{
  ℕ, Bool, true, false, not, ◌&&◌, Option, none, some, String, List, [], ◌∷◌, if◌then◌else◌,
  is_some,
}
use copilot_cpp.Prelude.Int.{ℤ}
use copilot_cpp.Prelude.Exec.{Result, ok, err}
use copilot_cpp.Json.{Json}
use copilot_cpp.Session.Tasks.{Thrown, standard, foreign}

-- The types that `schema_type` tells apart; `object` is any other type.
pub data Shape : Type 0 where
  boolean : Shape
  integer : Shape
  number : Shape
  text : Shape
  array : Shape → Shape
  optional : Shape → Shape
  object : Shape

-- `float` and `double`, and the types with conversions of their own
pub record Scalars : Type 1 where
  pub Number : Type 0
  pub Object : Type 0

abbrev pub Meaning : Scalars → Shape → Type 0
Meaning C boolean = Bool
Meaning C integer = ℤ
Meaning C number = C.Number
Meaning C text = String
Meaning C (array s) = List (Meaning C s)
Meaning C (optional s) = Option (Meaning C s)
Meaning C object = C.Object

-- `is_optional_v`
abbrev pub is_optional : Shape → Bool
is_optional (optional s) = true
is_optional _ = false

-- What the extraction uses of nlohmann::json: `get<T>`, which gives the text of what it throws, and
-- the text of the exception that `at` throws for a member that is not there.
pub record Conversions (J : Json) : Type 1 where
  pub scalars : Scalars
  pub get : (s : Shape) → Json.Value J → Result String (Meaning scalars s)
  pub out_of_range : Json.Value J → String → String

-- A `std::tuple` of the values of a list of types.
abbrev pub Arguments : Scalars → List Shape → Type 0
Arguments C [] = Unit
Arguments C (s ∷ ss) = Meaning C s × Arguments C ss

pub data ResultType : Type 0 where
  success failure rejected denied timeout : ResultType

-- `ToolResultObject`, as far as a tool built here sets it
pub record ToolResultObject : Type 0 where
  pub text_result_for_llm : String
  pub result_type : ResultType
  pub error : Option String

abbrev pub produced_an_error : String
produced_an_error = "Invoking this tool produced an error. Detailed information is not available."

-- the two `catch` clauses of a handler
unfoldable pub caught : Result Thrown ToolResultObject → ToolResultObject
caught (ok r) = r
caught (err (standard what)) = record {
  text_result_for_llm = produced_an_error;
  result_type = failure;
  error = some what;
}
caught (err foreign) = record {
  text_result_for_llm = produced_an_error;
  result_type = failure;
  error = some "Unknown error";
}

-- a value beside the values after it; the first exception counts
abbrev pub both : {A B : Type 0} → Result String A → Result String B → Result String (A × B)
both (ok a) (ok b) = ok (a, b)
both (ok a) (err e) = err e
both (err e) r = err e

-- the function on the arguments, once they are read
abbrev pub called :
    {A : Type 0}
    → (A → Result Thrown ToolResultObject)
    → Result String A
    → Result Thrown ToolResultObject
called fn (ok a) = fn a
called fn (err what) = err (standard what)

abbrev pub type_name : Shape → String
type_name boolean = "boolean"
type_name integer = "integer"
type_name number = "number"
type_name text = "string"
type_name (array s) = "array"
type_name (optional s) = type_name s
type_name object = "object"

module _ (J : Json) where
  -- The members of an object that is being built; the entry that was assigned last is in front.
  abbrev pub Members : Type 0
  Members = List (String × Json.Value J)

  -- `schema_type<T>::schema`
  unfoldable pub schema : Shape → Members
  schema (array s) = ("type", Json.text J "array") ∷ ("items", Json.object J (schema s)) ∷ []
  schema (optional s) = schema s
  schema boolean = ("type", Json.text J "boolean") ∷ []
  schema integer = ("type", Json.text J "integer") ∷ []
  schema number = ("type", Json.text J "number") ∷ []
  schema text = ("type", Json.text J "string") ∷ []
  schema object = ("type", Json.text J "object") ∷ []

  pub record ParamDescriptor : Type 0 where
    pub name : String
    pub description : String
    pub type_schema : Members
    pub required : Bool
    pub enum_values : Option (List (Json.Value J))
    pub default_value : Option (Json.Value J)

  -- `inv.arguments.value_or(json::object())`
  abbrev pub or_empty : Option (Json.Value J) → Json.Value J
  or_empty none = Json.object J []
  or_empty (some v) = v

  pub record Tool : Type 0 where
    pub name : String
    pub description : String
    pub parameters_schema : Json.Value J
    pub handler : Option (Json.Value J) → ToolResultObject

module _ {J : Json} (C : Conversions J) where
  open C use {scalars, get, out_of_range}
  open J use {Value, is_null, contains, at}

  -- `args.contains(name) && !args.at(name).is_null()`
  abbrev pub given : Value → String → Bool
  given args name =
      contains args name && elim (at args name) [ none ↦ false | some v ↦ not (is_null v) ]

  abbrev pub get_some :
      (s : Shape) → Value → String → Option Value → Result String (Meaning scalars s)
  get_some s args name none = err (out_of_range args name)
  get_some s args name (some v) = get s v

  -- `args.at(name).get<T>()`
  unfoldable pub get_at : (s : Shape) → Value → String → Result String (Meaning scalars s)
  get_at s args name = get_some s args name (at args name)

  abbrev pub wrap : {A : Type 0} → Result String A → Result String (Option A)
  wrap (ok a) = ok (some a)
  wrap (err e) = err e

  -- `extract_arg<T>`
  unfoldable pub extract_arg : (s : Shape) → Value → String → Result String (Meaning scalars s)
  unfolding get_at
  extract_arg (optional s) args name =
      let inner = wrap (extract_arg s args name) in if given args name then inner else ok none
  extract_arg (array s) args name = get_at (array s) args name
  extract_arg boolean args name = get_at boolean args name
  extract_arg integer args name = get_at integer args name
  extract_arg number args name = get_at number args name
  extract_arg text args name = get_at text args name
  extract_arg object args name = get_at object args name

  -- `extract_arg_or<T>`
  unfoldable pub extract_arg_or :
      (s : Shape) → Value → String → Meaning scalars s → Result String (Meaning scalars s)
  unfolding extract_arg
  extract_arg_or s args name default_val =
      if given args name then extract_arg s args name else ok default_val
