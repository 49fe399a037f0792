-- ===== src/Tests/Tooling.antt =====
-- tool_builder.hpp: a tool that adds to a count, and one with an optional argument.
use copilot_cpp.Prelude.{◌≡◌, refl, inl, inr, none, some, String, [], ◌∷◌}
use copilot_cpp.Prelude.Int.{ℤ, pos}
use copilot_cpp.Prelude.Exec.{Result, ok, err}
use copilot_cpp.Json.{Json}
use copilot_cpp.Session.Tasks.{Thrown}
use copilot_cpp.Tools.{
  Shape, Meaning, Scalars, Conversions, Arguments, ToolResultObject, success, failure,
  produced_an_error, Tool, caught,
}
use copilot_cpp.Tools.Building.{
  ToolBuilderWithParams, first_param, param, default_value, build_tool,
}
use copilot_cpp.Tools.Functions.{make_tool, required_args}
use copilot_cpp.Tools.Invariant.{Builds, starts, adds, defaults, AllSound, builder-AllSound}
use copilot_cpp.Tools.Calls.{build_tool-calls}
use copilot_cpp.Tools.Functions.Required.{make_tool-refuses}
use copilot_cpp.Tests.Values.{Node, string, number, flag, nodes, nodes-IsLawful}

abbrev scalars : Scalars
scalars = record { Number = ℤ; Object = Node }

abbrev get : (s : Shape) → Node → Result String (Meaning scalars s)
get Shape.integer (number n) = ok n
get Shape.text (string s) = ok s
get Shape.boolean (flag b) = ok b
get Shape.object v = ok v
get _ v = err "type_error"

abbrev conversions : Conversions nodes
conversions = record { scalars = scalars; get = get; out_of_range = λ args name. "key not found" }

abbrev builder : ToolBuilderWithParams nodes Shape.text (Shape.integer ∷ [])
builder =
    default_value
      (param (first_param "repeat" "Repeat a word" Shape.text "word" "the word") Shape.integer
        "times" "how often")
      (number (pos 2))

builder-Builds : Builds conversions Shape.text (Shape.integer ∷ []) builder
builder-Builds =
    defaults
      (adds (starts "repeat" "Repeat a word" Shape.text "word" "the word") Shape.integer "times"
        "how often")
      (number (pos 2)) (pos 2, refl)

abbrev answer : Arguments scalars (Shape.text ∷ Shape.integer ∷ []) → Result Thrown ToolResultObject
answer (word, _) = ok (record { text_result_for_llm = word; result_type = success; error = none })

builder-AllSound_example : AllSound conversions builder.params
builder-AllSound_example = builder-AllSound conversions builder-Builds

build_tool-calls_example :
    (build_tool conversions builder answer).handler
      (some (Json.object nodes (("word", string "hi") ∷ [])))
    ≡ record { text_result_for_llm = "hi"; result_type = success; error = none }
unfolding default_value param first_param caught
build_tool-calls_example =
    build_tool-calls conversions nodes-IsLawful (("word", string "hi") ∷ []) builder answer
      ("hi", (pos 2, tt)) builder-Builds
      (inl (string "hi", refl, refl, refl), (inr (refl, inl (number (pos 2), refl, refl)), tt))

make_tool-refuses_example :
    (t : Tool nodes) × (what : String) × (make_tool conversions "run" "Run"
        (Shape.optional Shape.integer ∷ Shape.text ∷ [])
        (λ xs. ok (record { text_result_for_llm = "ran"; result_type = success; error = none }))
        ("limit" ∷ "command" ∷ [])
      ≡ ok t)
    × (t.handler (some (Json.object nodes (("limit", number (pos 3)) ∷ []))) ≡ record {
      text_result_for_llm = produced_an_error;
      result_type = failure;
      error = some what;
    })
unfolding required_args
make_tool-refuses_example =
    make_tool-refuses conversions nodes-IsLawful (("limit", number (pos 3)) ∷ []) "run" "Run"
      (Shape.optional Shape.integer ∷ Shape.text ∷ [])
      (λ xs. ok (record { text_result_for_llm = "ran"; result_type = success; error = none }))
      ("limit" ∷ "command" ∷ []) [] [] "command" refl refl refl
