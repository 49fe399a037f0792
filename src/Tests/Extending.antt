-- ===== src/Tests/Extending.antt =====
-- src/canvas.cpp: a canvas with one action declared twice.
use copilot_cpp.Prelude.{◌≡◌, refl, none, some, [], ◌∷◌}
use copilot_cpp.Prelude.Exec.{Result, ok, err}
use copilot_cpp.Json.{Json}
use copilot_cpp.Extensions.{
  Fault, canvas_error, CanvasAction, CanvasOptions, Canvas, create, declare_actions, made,
  register_canvases, handle_canvas_request, error_answer,
}
use copilot_cpp.Extensions.Answers.{handle_canvas_request-action}
use copilot_cpp.Tests.Values.{Node, string, object_of, fields, nodes, nodes-IsLawful}

abbrev echo : Node → Result Fault Node
echo v = ok v

abbrev refuse : Node → Result Fault Node
refuse v = err (canvas_error "busy" "try later")

abbrev stale : CanvasAction nodes
stale = record { name = "draw"; description = none; input_schema = none; handler = some echo }

abbrev draw : CanvasAction nodes
draw = record {
  name = "draw";
  description = some "Draw";
  input_schema = none;
  handler = some refuse;
}

abbrev options : CanvasOptions nodes
options = record {
  id = "board";
  display_name = "Board";
  description = "A board";
  input_schema = none;
  actions = stale ∷ draw ∷ [];
  open_ = some echo;
  on_close = none;
}

abbrev canvas : Canvas nodes
canvas = made nodes options (
  Json.object nodes (("name", string "draw") ∷ [])
      ∷ Json.object nodes (("description", string "Draw") ∷ ("name", string "draw") ∷ [])
      ∷ [],
  ("draw", some refuse) ∷ ("draw", some echo) ∷ [],
)

abbrev request : Node
request = object_of (fields (("canvasId", string "board") ∷ ("actionName", string "draw") ∷ []))

handle_canvas_request-action_example :
    handle_canvas_request nodes
      (register_canvases nodes (some canvas ∷ []) [])
      "canvas.action.invoke"
      request
    ≡ ok (error_answer nodes "busy" "try later")
unfolding create declare_actions
handle_canvas_request-action_example =
    handle_canvas_request-action nodes-IsLawful options canvas (stale ∷ []) [] draw refuse [] [] []
      request refl refl refl tt tt refl refl
