-- ===== src/Tools/Structs.antt =====
-- tool_builder.hpp: class template `ToolBuilder::StructBuilder`.
use copilot_cpp.Prelude.{not, none, String, List, [], ◌∷◌, ◌++◌}
use copilot_cpp.Prelude.Exec.{Result}
use copilot_cpp.Json.{Json}
use copilot_cpp.Session.Tasks.{Thrown}
use copilot_cpp.Tools.{
  Shape, is_optional, ToolResultObject, caught, schema, ParamDescriptor, or_empty, Tool, called,
}
use copilot_cpp.Tools.Building.{generate_schema, restrict, make_default}

module _ (J : Json) where
  -- `ToolBuilder::StructBuilder`
  pub record StructBuilder : Type 0 where
    pub name : String
    pub description : String
    pub params : List (ParamDescriptor J)

module _ {J : Json} where
  -- `params_.back()` changed, if there is one
  unfoldable pub on_back :
      (ParamDescriptor J → ParamDescriptor J) → List (ParamDescriptor J) → List (ParamDescriptor J)
  on_back f [] = []
  on_back f (p ∷ []) = f p ∷ []
  on_back f (p ∷ q ∷ ps) = p ∷ on_back f (q ∷ ps)

  -- describe
  unfoldable pub describe : StructBuilder J → Shape → String → String → StructBuilder J
  describe b s name description = record b {
    params =
        b.params
        ++ record {
          name = name;
          description = description;
          type_schema = schema J s;
          required = not (is_optional s);
          enum_values = none;
          default_value = none;
        }
          ∷ [];
  }

  unfoldable pub struct_one_of : StructBuilder J → List (Json.Value J) → StructBuilder J
  unfolding on_back
  struct_one_of b vs = record b { params = on_back (restrict vs) b.params }

  unfoldable pub struct_default_value : StructBuilder J → Json.Value J → StructBuilder J
  unfolding on_back
  struct_default_value b v = record b { params = on_back (make_default v) b.params }

  -- handler: `parse` is `args.get<ArgsStruct>()`
  unfoldable pub struct_handler :
      {A : Type 0}
      → StructBuilder J
      → (Json.Value J → Result String A)
      → (A → Result Thrown ToolResultObject)
      → Tool J
  unfolding generate_schema
  struct_handler b parse fn = record {
    name = b.name;
    description = b.description;
    parameters_schema = generate_schema J b.params;
    handler = λ inv. caught (called fn (parse (or_empty J inv)));
  }
