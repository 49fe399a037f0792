-- ===== src/Tests/Asking.antt =====
-- src/client.cpp: requests for a session that is not there, and for a token.
use copilot_cpp.Prelude.{◌≡◌, refl, none, some, [], ◌∷◌}
use copilot_cpp.Prelude.Int.{pos}
use copilot_cpp.Prelude.Exec.{ok, err}
use copilot_cpp.Requests.{Handlers, Sessions, string_at, tool_failure}
use copilot_cpp.Requests.Tokens.{
  Token, TokenRequest, Provider, handle_github_token_request, read_request, token_reply, Lasting,
  token_lasts,
}
use copilot_cpp.Requests.Routing.{Setup, route}
use copilot_cpp.Requests.Answered.{tool_call, route-refusal}
use copilot_cpp.Tests.Values.{
  nodes, Node, nothing, string, number, object_of, fields, nodes-IsLawful,
}

abbrev handlers : Handlers nodes
handlers = record {
  tools = ("add", some (λ i. ok (number (pos 7)))) ∷ ("old", none) ∷ [];
  permission = λ p. err "refused";
  user_input = λ u. err "away";
  elicitation = λ v. ok v;
  exit_plan_mode = λ v. ok v;
  auto_mode_switch = λ v. ok v;
  hooks = λ hook v. ok nothing;
  canvas = λ method v. ok v;
  factory = λ method v. ok v;
}

abbrev lasting : Provider
lasting r = ok (some (record { access_token = "t"; expires_in = pos 7200; token_type = none }))

abbrev setup : Setup nodes
setup = record {
  sessions = ("s1", handlers) ∷ [];
  provider = some lasting;
  bridge = none;
  session_fs = none;
  request_handler = none;
}

abbrev tool_params : Node
tool_params = object_of (
    fields
      (("sessionId", string "s9") ∷ ("toolCallId", string "c1") ∷ ("toolName", string "add") ∷ []))

route-refusal_example :
    route nodes setup "tool.call" tool_params
    ≡ ok (tool_failure nodes "Session not found" "Unknown session s9")
unfolding string_at
route-refusal_example =
    route-refusal nodes setup "tool.call" tool_call tool_params "s9" refl
      (("c1", refl), (("add", refl), tt)) refl

abbrev reply : Node
reply = token_reply nodes (
    lasting (record {
      registration_id = "";
      host = "h";
      session_id = none;
      reason = copilot_cpp.Requests.Tokens.refresh;
    }))

token_lasts_example : Lasting nodes reply
unfolding handle_github_token_request read_request token_reply
token_lasts_example =
    token_lasts nodes lasting
      (object_of (fields (("host", string "h") ∷ ("reason", string "refresh") ∷ []))) reply refl
