-- ===== src/Tools/Building.antt =====
-- tool_builder.hpp: class template `ToolBuilderWithParams`. The parameter pack `Args...` is the index
-- of the list of descriptors.
use copilot_cpp.Prelude.{
  true, false, Option, none, some, String, List, [], ◌∷◌, ◌++◌, map, if◌then◌else◌,
}
use copilot_cpp.Prelude.Exec.{Result, ok, err}
use copilot_cpp.Json.{Json}
use copilot_cpp.Session.Tasks.{Thrown}
use copilot_cpp.Tools.{
  Shape, Meaning, Conversions, Arguments, ToolResultObject, caught, Members, schema,
  ParamDescriptor, or_empty, Tool, both, called, extract_arg, extract_arg_or,
}

module _ (J : Json) where
  -- `std::vector<ParamDescriptor>`, one for each type of the pack
  pub data Params : List Shape → Type 0 where
    nil : Params []
    cons : {s : Shape} {ss : List Shape} → ParamDescriptor J → Params ss → Params (s ∷ ss)

  -- `ToolBuilderWithParams<Args...>`, whose pack is never empty
  pub record ToolBuilderWithParams (s : Shape) (ss : List Shape) : Type 0 where
    pub name : String
    pub description : String
    pub params : Params (s ∷ ss)

  -- the descriptor that `param<T>` adds
  abbrev pub required_param : Shape → String → String → ParamDescriptor J
  required_param s name description = record {
    name = name;
    description = description;
    type_schema = schema J s;
    required = true;
    enum_values = none;
    default_value = none;
  }

  -- generate_schema: the property of one parameter
  abbrev with_enum : Option (List (Json.Value J)) → Members J → Members J
  with_enum none prop = prop
  with_enum (some vs) prop = ("enum", Json.array J vs) ∷ prop

  abbrev pub property : ParamDescriptor J → Members J
  property p = with_enum p.enum_values (("description", Json.text J p.description) ∷ p.type_schema)

  -- generate_schema: the loop over the parameters
  unfoldable pub properties : Members J → List (ParamDescriptor J) → Members J
  properties props [] = props
  properties props (p ∷ ps) = properties ((p.name, Json.object J (property p)) ∷ props) ps

  unfoldable pub required_names : List (ParamDescriptor J) → List String
  required_names [] = []
  required_names (p ∷ ps) =
      let rest = required_names ps in if p.required then p.name ∷ rest else rest

  abbrev pub object_schema : Members J → List String → Json.Value J
  object_schema props required = Json.object J (
      ("type", Json.text J "object")
      ∷ ("properties", Json.object J props)
      ∷ ("required", Json.array J (map (Json.text J) required))
      ∷ [])

  unfoldable pub generate_schema : List (ParamDescriptor J) → Json.Value J
  unfolding properties required_names
  generate_schema ps = object_schema (properties [] ps) (required_names ps)

module _ {J : Json} where
  unfoldable pub push :
      {ss : List Shape} → Params J ss → (s : Shape) → ParamDescriptor J → Params J (ss ++ s ∷ [])
  push nil s p = cons p nil
  push (cons q ps) s p = cons q (push ps s p)

  -- `params_.back()` changed
  unfoldable pub on_last :
      {s : Shape} {ss : List Shape}
      → (ParamDescriptor J → ParamDescriptor J)
      → Params J (s ∷ ss)
      → Params J (s ∷ ss)
  on_last f (cons p nil) = cons (f p) nil
  on_last f (cons p (cons q ps)) = cons p (on_last f (cons q ps))

  abbrev pub to_list : {ss : List Shape} → Params J ss → List (ParamDescriptor J)
  to_list nil = []
  to_list (cons p ps) = p ∷ to_list ps

  abbrev pub restrict : List (Json.Value J) → ParamDescriptor J → ParamDescriptor J
  restrict vs p = record p { enum_values = some vs }

  abbrev pub make_default : Json.Value J → ParamDescriptor J → ParamDescriptor J
  make_default v p = record p { required = false; default_value = some v }

  -- `ToolBuilder(name, description).param<T>(…)`
  unfoldable pub first_param :
      String → String → (s : Shape) → String → String → ToolBuilderWithParams J s []
  first_param tool about s name description = record {
    name = tool;
    description = about;
    params = cons (required_param J s name description) nil;
  }

  -- param
  unfoldable pub param :
      {s : Shape} {ss : List Shape}
      → ToolBuilderWithParams J s ss
      → (t : Shape) → String
      → String
      → ToolBuilderWithParams J s (ss ++ t ∷ [])
  unfolding push
  param b t name description = record {
    name = b.name;
    description = b.description;
    params = push b.params t (required_param J t name description);
  }

  module _ {s : Shape} {ss : List Shape} where
    -- one_of
    unfoldable pub one_of :
        ToolBuilderWithParams J s ss → List (Json.Value J) → ToolBuilderWithParams J s ss
    unfolding on_last
    one_of b vs = record b { params = on_last (restrict vs) b.params }

    -- default_value
    unfoldable pub default_value :
        ToolBuilderWithParams J s ss → Json.Value J → ToolBuilderWithParams J s ss
    unfolding on_last
    default_value b v = record b { params = on_last (make_default v) b.params }

module _ {J : Json} (C : Conversions J) where
  open C use {scalars, get}

  abbrev or_default :
      (s : Shape)
      → Json.Value J
      → String
      → Result String (Meaning scalars s)
      → Result String (Meaning scalars s)
  or_default s args name (ok v) = extract_arg_or C s args name v
  or_default s args name (err e) = err e

  abbrev extract_for :
      (s : Shape)
      → Json.Value J
      → String
      → Option (Json.Value J)
      → Result String (Meaning scalars s)
  extract_for s args name none = extract_arg C s args name
  extract_for s args name (some d) = or_default s args name (get s d)

  -- extract_param
  unfoldable pub extract_param :
      (s : Shape) → Json.Value J → ParamDescriptor J → Result String (Meaning scalars s)
  extract_param s args p = extract_for s args p.name p.default_value

  -- build_tool: the tuple of the arguments, read from the first to the last
  unfoldable pub extract_all :
      {ss : List Shape} → Params J ss → Json.Value J → Result String (Arguments scalars ss)
  unfolding extract_param
  extract_all nil args = ok tt
  extract_all (cons {s} p ps) args = both (extract_param s args p) (extract_all ps args)

  module _ {s : Shape} {ss : List Shape} where
    -- handler: build_tool, for a function that ends with `normalize_result`
    unfoldable pub build_tool :
        ToolBuilderWithParams J s ss
        → (Arguments scalars (s ∷ ss) → Result Thrown ToolResultObject)
        → Tool J
    unfolding generate_schema extract_all
    build_tool b fn = record {
      name = b.name;
      description = b.description;
      parameters_schema = generate_schema J (to_list b.params);
      handler = λ inv. caught (called fn (extract_all b.params (or_empty J inv)));
    }
