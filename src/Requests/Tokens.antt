-- ===== src/Requests/Tokens.antt =====
-- src/client.cpp: handle_github_token_request.
use mathlib.Core.Path.{subst}
use copilot_cpp.Prelude.{
  ℕ, Bool, true, false, Option, none, some, String, [], ◌∷◌, ◌≡◌, ◌≤◌, refl, ap, ◌∙◌, ltb,
  if◌then◌else◌, arith, ◌⊎◌, inl, inr, Bool-cases,
}
use copilot_cpp.Prelude.Text.{str_eq}
use copilot_cpp.Prelude.Exec.{Result, ok, err, ok-injective}
use copilot_cpp.Prelude.Try.{◌>>=◌, or_throw}
use copilot_cpp.Prelude.Int.{ℤ, pos, negsuc}
use copilot_cpp.Json.{Json, IsLawful}
use copilot_cpp.Rpc.Message.{code_value, method_not_found}
use copilot_cpp.Requests.{standard, Outcome, json_rpc_error, non_null, optional, optional_string}

-- `GitHubTokenAcquireReason`
pub data Reason : Type 0 where
  initial refresh : Reason

-- `GitHubTokenRequest`
pub record TokenRequest : Type 0 where
  pub registration_id : String
  pub host : String
  pub session_id : Option String
  pub reason : Reason

-- `GitHubToken`
pub record Token : Type 0 where
  pub access_token : String
  pub expires_in : ℤ
  pub token_type : Option String

-- `expires_in < kMinGitHubTokenExpiresIn`
abbrev pub expires_early : ℤ → Bool
expires_early (negsuc n) = true
expires_early (pos n) = ltb n 3601

-- A provider returns a token, declines, or throws.
abbrev pub Provider : Type 0
Provider = TokenRequest → Result String (Option Token)

module _ (J : Json) where
  open J use {Value, text, integer, object, get_string, at}

  -- `params.value(key, "")`
  abbrev pub string_or_empty : Value → String → Outcome J String
  string_or_empty v key = elim (at v key) [
    | none ↦ ok ""
    | some w ↦ or_throw (get_string w) (standard "json::type_error")
  ]

  abbrev pub cancelled : Value
  cancelled = object (("kind", text "cancelled") ∷ [])

  abbrev pub granted : Token → Value
  granted t = object (
      ("kind", text "token")
      ∷ ("accessToken", text t.access_token)
      ∷ ("expiresIn", integer t.expires_in)
      ∷ optional J "tokenType" (elim t.token_type [ none ↦ none | some s ↦ some (text s) ]))

  unfoldable pub token_reply : Result String (Option Token) → Value
  token_reply (err what) = cancelled
  token_reply (ok none) = cancelled
  token_reply (ok (some t)) = if expires_early t.expires_in then cancelled else granted t

  unfoldable pub read_request : Value → Outcome J TokenRequest
  read_request params = do
    registration ← string_or_empty params "registrationId"
    host ← string_or_empty params "host"
    session ← optional_string J (non_null J params "sessionId")
    reason ← string_or_empty params "reason"
    let made : TokenRequest = record {
      registration_id = registration;
      host = host;
      session_id = session;
      reason = if str_eq reason "refresh" then refresh else initial;
    }
    ok made

  -- handle_github_token_request
  unfoldable pub handle_github_token_request : Option Provider → Value → Outcome J Value
  unfolding read_request token_reply
  handle_github_token_request none params = err (
      json_rpc_error J (code_value method_not_found)
        "No GitHub token provider registered (set ClientOptions::github_token_provider)")
  handle_github_token_request (some provider) params =
      read_request params >>= λ r. ok (token_reply (provider r))

  -- the reply is a refusal, or a token that lives long enough
  abbrev pub Lasting : Value → Type 0
  Lasting v =
      (at v "kind" ≡ some (text "cancelled"))
      ⊎ ((n : ℕ) × (at v "kind" ≡ some (text "token"))
          × (at v "expiresIn" ≡ some (integer (pos n)))
          × (3601 ≤ n))

late_enough : (z : ℤ) → expires_early z ≡ false → (n : ℕ) × (z ≡ pos n) × (3601 ≤ n)
late_enough (negsuc n) e = absurd cc
late_enough (pos n) e = (n, refl, ground (arith, e))

module _ (J : Json) ⦃lawful : IsLawful J⦄ where
  open J use {Value, text, integer, object, at}

  Lasting-cancelled : Lasting J (cancelled J)
  Lasting-cancelled = inl (IsLawful.at-object lawful _ "kind")

  Lasting-granted : (t : Token) → expires_early t.expires_in ≡ false → Lasting J (granted J t)
  Lasting-granted t early =
      let (n, e, late) = late_enough t.expires_in early in
      inr (
        n,
        IsLawful.at-object lawful _ "kind",
        IsLawful.at-object lawful _ "expiresIn" ∙ ap (λ z. some (integer z)) e,
        late,
      )

  Lasting-token_reply : (r : Result String (Option Token)) → Lasting J (token_reply J r)
  unfolding token_reply
  Lasting-token_reply (err what) = Lasting-cancelled
  Lasting-token_reply (ok none) = Lasting-cancelled
  Lasting-token_reply (ok (some t)) = elim (Bool-cases (expires_early t.expires_in)) [
    | inl e ↦ rw (e, token_reply) Lasting-cancelled
    | inr e ↦ rw (e, token_reply) (Lasting-granted t e)
  ]

  Lasting-read :
      (r : Outcome J TokenRequest) (provider : Provider) (v : Value)
      → (r >>= λ q. ok (token_reply J (provider q))) ≡ ok v
      → Lasting J v
  Lasting-read (err e) provider v h = absurd cc
  Lasting-read (ok q) provider v h =
      subst (Lasting J) (ok-injective (token_reply J (provider q)) v h)
        (Lasting-token_reply (provider q))

  -- Every reply of handle_github_token_request that is no error has the kind cancelled, or the kind
  -- token with an expiresIn of at least 3601, whatever the provider returns or throws.
  pub token_lasts :
      (provider : Provider) (params v : Value)
      → handle_github_token_request J (some provider) params ≡ ok v
      → Lasting J v
  unfolding handle_github_token_request
  token_lasts provider params v h = Lasting-read (read_request J params) provider v h
