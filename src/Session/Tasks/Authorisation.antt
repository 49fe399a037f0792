-- ===== src/Session/Tasks/Authorisation.antt =====
-- src/session.cpp: build_mcp_auth_response and the background task of an authorisation.
use copilot_cpp.Prelude.{Option, none, some, String, List, [], ◌∷◌, ◌++◌}
use copilot_cpp.Prelude.Int.{ℤ}
use copilot_cpp.Prelude.Exec.{Result, ok, err, pure}
use copilot_cpp.Json.{Json}
use copilot_cpp.Session.Tasks.{Thrown, catch_all, Surroundings, Io, invoke}

module _ (J : Json) where
  open J use {Value, text, integer, object}

  -- `McpAuthToken`
  pub record McpAuthToken : Type 0 where
    pub access_token : String
    pub token_type : Option String
    pub expires_in : Option ℤ

  abbrev pub member_of : String → Option Value → List (String × Value)
  member_of key none = []
  member_of key (some v) = (key, v) ∷ []

  unfoldable pub token_to_json : McpAuthToken → Value
  token_to_json t = object (
      ("kind", text "token")
        ∷ ("accessToken", text t.access_token)
        ∷ member_of "tokenType" (elim t.token_type [ none ↦ none | some s ↦ some (text s) ])
      ++ member_of "expiresIn" (elim t.expires_in [ none ↦ none | some n ↦ some (integer n) ]))

  abbrev pub cancelled_json : Value
  cancelled_json = object (("kind", text "cancelled") ∷ [])

  -- build_mcp_auth_response: a handler that is missing, declines or throws
  unfoldable pub build_mcp_auth_response :
      {R : Type 0} → Option (R → String → Result Thrown (Option McpAuthToken)) → R → String → Value
  unfolding token_to_json
  build_mcp_auth_response none r id = cancelled_json
  build_mcp_auth_response (some handler) r id = elim (handler r id) [
    | ok (some t) ↦ token_to_json t
    | ok none ↦ cancelled_json
    | err e ↦ cancelled_json
  ]

  module _ (S : Surroundings J) where
    -- the task of an authorisation
    unfoldable pub mcp_auth_task :
        {R : Type 0}
        → Option (R → String → Result Thrown (Option McpAuthToken))
        → String
        → R
        → Io J (Unit {0})
    unfolding invoke catch_all build_mcp_auth_response
    mcp_auth_task handler id r d =
        let result = build_mcp_auth_response handler r (Surroundings.session_id S) in
        catch_all
          (invoke J S "session.mcp.oauth.handlePendingRequest"
            (("requestId", text id) ∷ ("result", result) ∷ []) d)
          (pure tt)
