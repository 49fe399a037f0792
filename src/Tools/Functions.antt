-- ===== src/Tools/Functions.antt =====
-- tool_builder.hpp: `make_tool`, for a function whose argument types are a list of shapes.
pub mod Required
use Prim.Native.String.{◌++◌ as ◌<>◌}
use copilot_cpp.Prelude.{
  ℕ, zero, suc, ◌+◌, Bool, true, false, Option, none, some, String, List, [], ◌∷◌, map, length,
  ◌==◌, if◌then◌else◌,
}
use copilot_cpp.Prelude.Exec.{Result, ok, err}
use copilot_cpp.Json.{Json}
use copilot_cpp.Session.Tasks.{Thrown, standard}
use copilot_cpp.Launch.CommandLine.{to_string}
use copilot_cpp.Tools.{
  Shape, is_optional, Meaning, Conversions, Arguments, ToolResultObject, caught, both, called,
  Members, schema, or_empty, Tool, extract_arg,
}
use copilot_cpp.Tools.Building.{object_schema}

-- `add_required_if` in the order of the arguments
unfoldable pub required_args : List Shape → List String → List String
required_args [] names = []
required_args (s ∷ ss) [] = []
required_args (s ∷ ss) (name ∷ names) =
    let rest = required_args ss names in if is_optional s then rest else name ∷ rest

-- make_tool: `"arg" + std::to_string(i)` for each argument
unfoldable pub argument_names : ℕ → List Shape → List String
argument_names i [] = []
argument_names i (s ∷ ss) = ("arg" <> to_string i) ∷ argument_names (suc i) ss

module _ (J : Json) where
  -- `schema["properties"][names[Is]] = …`, in the order of the arguments
  unfoldable pub argument_schemas : Members J → List Shape → List String → Members J
  argument_schemas props [] names = props
  argument_schemas props (s ∷ ss) [] = props
  argument_schemas props (s ∷ ss) (name ∷ names) =
      argument_schemas ((name, Json.object J (schema J s)) ∷ props) ss names

  -- generate_schema
  unfoldable pub function_schema : List Shape → List String → Json.Value J
  unfolding required_args argument_schemas
  function_schema ss names = object_schema J (argument_schemas [] ss names) (required_args ss names)

module _ {J : Json} (C : Conversions J) where
  open C use {scalars}

  -- invoke_with_json. A name that is missing is never read: make_tool checks the count.
  unfoldable pub extract_named :
      (ss : List Shape) → List String → Json.Value J → Result String (Arguments scalars ss)
  extract_named [] names args = ok tt
  extract_named (s ∷ ss) [] args = err "names[Is] is out of range"
  extract_named (s ∷ ss) (name ∷ names) args =
      both (extract_arg C s args name) (extract_named ss names args)

  abbrev pub function_tool :
      String
      → String
      → (ss : List Shape) → (Arguments scalars ss → Result Thrown ToolResultObject)
      → List String
      → Tool J
  function_tool name description ss fn names = record {
    name = name;
    description = description;
    parameters_schema = function_schema J ss names;
    handler = λ inv. caught (called fn (extract_named ss names (or_empty J inv)));
  }

  -- make_tool with the names of the parameters
  unfoldable pub make_tool :
      String
      → String
      → (ss : List Shape) → (Arguments scalars ss → Result Thrown ToolResultObject)
      → List String
      → Result Thrown (Tool J)
  unfolding function_schema extract_named
  make_tool name description ss fn names =
      if length names == length ss
      then ok (function_tool name description ss fn names)
      else err (
          standard (
            "Parameter name count mismatch for tool '"
            <> (name
                <> ("': expected "
                    <> (to_string (length ss) <> (", got " <> to_string (length names)))))))

  -- make_tool without names
  unfoldable pub make_tool_unnamed :
      String
      → String
      → (ss : List Shape) → (Arguments scalars ss → Result Thrown ToolResultObject)
      → Result Thrown (Tool J)
  unfolding make_tool argument_names
  make_tool_unnamed name description ss fn = make_tool name description ss fn (argument_names 0 ss)
