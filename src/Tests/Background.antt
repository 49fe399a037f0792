-- ===== src/Tests/Background.antt =====
-- src/session.cpp: tasks whose first call is refused, or that are cancelled.
use copilot_cpp.Prelude.{◌<◌, ◌≡◌, refl, true, false, none, some, [], ◌==◌, if◌then◌else◌, ◌⊎◌}
use copilot_cpp.Prelude.Int.{pos}
use copilot_cpp.Prelude.Exec.{Result, ok, err}
use copilot_cpp.Session.Tasks.{
  Thrown, standard, ToolInvocation, ToolRequest, PermissionResult, Desk, Surroundings,
  external_tool, permission_task, decided,
}
use copilot_cpp.Session.Tasks.Silence.{is_silent, tool_silent, permission_answers}
use copilot_cpp.Tests.Values.{nodes, Node, number, nothing}

-- the first call is refused, and the second one is taken
abbrev refusing : Surroundings nodes
refusing = record {
  session_id = "s1";
  send = λ n method params. if n == 0 then err (standard "refused") else ok nothing;
  cancelled = λ n. false;
}

abbrev cancelled_session : Surroundings nodes
cancelled_session = record refusing { cancelled = λ n. true }

abbrev idle : Desk nodes
idle = record { pending = 2; reads = 0; sends = 0; sent = []; accepted = 0 }

abbrev request : ToolRequest nodes
request = record {
  request_id = "r1";
  tool_call_id = "c1";
  tool_name = "add";
  arguments = some (number (pos 1));
  traceparent = none;
  tracestate = none;
}

abbrev seven : ToolInvocation nodes → Result Thrown Node
seven i = ok (number (pos 7))

abbrev approves : Node → Result Thrown (PermissionResult nodes)
approves r = ok (record { kind = "approved"; extra = []; decision_context = none })

tool_silent_example : (external_tool nodes cancelled_session seven request idle).1.sent ≡ []
tool_silent_example = tool_silent cancelled_session (λ n. refl) seven request idle

permission_answers_example :
    ((is_silent refusing (decided nodes refusing approves (ok nothing)) ≡ true)
      × (permission_task nodes refusing approves "r2" (ok nothing) idle ≡ (ok tt, idle)))
    ⊎ ((is_silent refusing (decided nodes refusing approves (ok nothing)) ≡ false)
        × (0 < (permission_task nodes refusing approves "r2" (ok nothing) idle).1.sends))
permission_answers_example = permission_answers refusing approves "r2" (ok nothing) idle
