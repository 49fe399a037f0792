-- ===== src/Extensions.antt =====
-- src/canvas.cpp, src/factory.cpp, src/session.cpp: canvases and factories of a session. The handlers
-- of the extension are parameters.
pub mod Answers
pub mod Factories
use text.Mathlib.Text.{starts_with}
use Prim.Native.String.{◌++◌ as str_append}
use copilot_cpp.Prelude.{
  Bool, true, false, ◌&&◌, not, Option, none, some, String, List, [], ◌∷◌, ◌++◌, if◌then◌else◌,
}
use copilot_cpp.Prelude.Text.{str_eq, lookup}
use copilot_cpp.Prelude.Exec.{Result, ok, err}
use copilot_cpp.Prelude.Try.{◌>>=◌, ◌>>◌, or_throw}
use copilot_cpp.Json.{Json}

-- `CanvasError` with its code and its message, and any other exception with its text
pub data Fault : Type 0 where
  canvas_error : String → String → Fault
  other : String → Fault

-- A `std::function` that may be empty.
abbrev pub Handler : Type 0 → Type 0 → Type 0
Handler V A = Option (V → Result Fault A)

-- the call of a `std::function`
abbrev pub call : {V A : Type 0} → Handler V A → V → Result Fault A
call none v = err (other "bad_function_call")
call (some f) v = f v

module _ (J : Json) where
  open J use {Value, text, array, object, get_string, is_string, contains, at}

  abbrev pub Members : Type 0
  Members = List (String × Value)

  pub record CanvasAction : Type 0 where
    pub name : String
    pub description : Option String
    pub input_schema : Option Value
    pub handler : Handler Value Value

  pub record CanvasOptions : Type 0 where
    pub id : String
    pub display_name : String
    pub description : String
    pub input_schema : Option Value
    pub actions : List CanvasAction
    pub open_ : Handler Value Value
    pub on_close : Handler Value (Unit {0})

  -- `Canvas`; in its map of actions the entry that was assigned last is in front
  pub record Canvas : Type 0 where
    pub id : String
    pub declaration : Value
    pub open_ : Handler Value Value
    pub close_ : Handler Value (Unit {0})
    pub actions : List (String × Handler Value Value)

  abbrev pub refuse_if : Bool → String → Result Fault (Unit {0})
  refuse_if b what = if b then err (other what) else ok tt

  abbrev set_value : String → Option Value → Members → Members
  set_value key none m = m
  set_value key (some v) m = (key, v) ∷ m

  abbrev set_text : String → Option String → Members → Members
  set_text key none m = m
  set_text key (some s) m = (key, text s) ∷ m

  -- the action as it is declared
  abbrev pub wire : CanvasAction → Value
  wire a = object (
      set_value "inputSchema" a.input_schema
        (set_text "description" a.description (("name", text a.name) ∷ [])))

  abbrev pub Declared : Type 0
  Declared = List Value × List (String × Handler Value Value)

  -- the loop over the actions: their declarations and the map of their handlers
  unfoldable pub declare_actions : List CanvasAction → Declared → Result Fault Declared
  declare_actions [] d = ok d
  declare_actions (a ∷ actions) (wires, handlers) = do
    refuse_if (starts_with a.name "canvas.") "canvas action names cannot start with 'canvas.'"
    declare_actions actions (wires ++ wire a ∷ [], (a.name, a.handler) ∷ handlers)

  abbrev actions_member : List Value → Members → Members
  actions_member [] m = m
  actions_member (w ∷ wires) m = ("actions", array (w ∷ wires)) ∷ m

  abbrev pub is_empty_handler : Handler Value Value → Bool
  is_empty_handler none = true
  is_empty_handler (some f) = false

  abbrev pub made : CanvasOptions → Declared → Canvas
  made o (wires, handlers) = record {
    id = o.id;
    declaration = object (
        actions_member wires (
          set_value "inputSchema" o.input_schema (
            ("id", text o.id)
            ∷ ("displayName", text o.display_name)
            ∷ ("description", text o.description)
            ∷ [])));
    open_ = o.open_;
    close_ = o.on_close;
    actions = handlers;
  }

  -- `Canvas::Canvas`
  unfoldable pub create : CanvasOptions → Result Fault Canvas
  unfolding declare_actions
  create o = do
    refuse_if (str_eq o.id "") "canvas id cannot be empty"
    refuse_if (is_empty_handler o.open_) "canvas open handler is required"
    d ← declare_actions o.actions ([], [])
    ok (made o d)

  abbrev pub no_handler : String → Fault
  no_handler action =
      canvas_error "canvas_action_no_handler"
        (str_append "No handler implemented for canvas action " action)

  abbrev run_action : String → Option (Handler Value Value) → Value → Result Fault Value
  run_action action none request = err (no_handler action)
  run_action action (some none) request = err (no_handler action)
  run_action action (some (some f)) request = f request

  -- `Canvas::handle_action`
  unfoldable pub handle_action : Canvas → String → Value → Result Fault Value
  handle_action c action request = run_action action (lookup action c.actions) request

  -- `Canvas::handle_close`
  unfoldable pub handle_close : Canvas → Value → Result Fault (Unit {0})
  handle_close c request = elim c.close_ [ none ↦ ok tt | some f ↦ f request ]

  -- `register_canvases`, for pointers that may be null
  unfoldable pub register_canvases :
      List (Option Canvas) → List (String × Canvas) → List (String × Canvas)
  register_canvases [] m = m
  register_canvases (none ∷ cs) m = register_canvases cs m
  register_canvases (some c ∷ cs) m = register_canvases cs ((c.id, c) ∷ m)

  -- `params.value(key, "")`, for an object
  abbrev pub string_of : Option Value → Result Fault String
  string_of none = ok ""
  string_of (some v) = or_throw (get_string v) (other "json::type_error")

  abbrev pub value_of : Value → String → Result Fault String
  value_of params key = string_of (at params key)

  abbrev pub error_answer : String → String → Value
  error_answer code message =
      object (("error", object (("code", text code) ∷ ("message", text message) ∷ [])) ∷ [])

  -- `catch (const CanvasError&)`
  abbrev pub caught : Result Fault Value → Result Fault Value
  caught (ok v) = ok v
  caught (err (canvas_error code message)) = ok (error_answer code message)
  caught (err (other what)) = err (other what)

  unfoldable pub perform : Canvas → String → Value → Result Fault Value
  unfolding handle_action handle_close
  perform c method params =
      if str_eq method "canvas.open"
      then call c.open_ params
      else if str_eq method "canvas.close"
      then (handle_close c params >>= λ _. ok (object []))
      else (value_of params "actionName" >>= λ action. handle_action c action params)

  abbrev pub serve : String → Option Canvas → String → Value → Result Fault Value
  serve id none method params =
      err (canvas_error "canvas_not_found" (str_append "Unknown canvas " id))
  serve id (some c) method params = caught (perform c method params)

  -- `Session::handle_canvas_request`
  unfoldable pub handle_canvas_request :
      List (String × Canvas) → String → Value → Result Fault Value
  unfolding perform
  handle_canvas_request canvases method params = do
    id ← value_of params "canvasId"
    serve id (lookup id canvases) method params
