-- ===== src/Launch/Validation.antt =====
-- src/client.cpp: what the constructor of a client guarantees of its options.
use copilot_cpp.Prelude.{Bool, true, false, ◌&&◌, ◌||◌, String, ◌≡◌, refl, is_some, arith}
use copilot_cpp.Prelude.Text.{str_eq}
use copilot_cpp.Prelude.Exec.{Result, ok, err}
use copilot_cpp.Prelude.Try.{◌>>=◌}
use copilot_cpp.Launch.{
  Options, refuse_if, check_plain, apply_aliases, apply_connection, check_exclusive, default_user,
  mint_token, configure, is_in_process, is_some_and,
}

-- The options that a client works with. An external server is addressed by its URL alone and
-- manages its own authentication; a runtime of the client's own has its login decided, and, if it
-- listens on a port, a token that is not empty.
pub record IsValid (o : Options) : Type 0 where
  pub external_only :
      is_some o.cli_url ≡ true
      → (o.use_stdio ≡ false)
        × ((is_some o.cli_path ≡ false)
            × ((is_some o.github_token ≡ false) × (is_some o.use_logged_in_user ≡ false)))
  pub user_decided : is_some o.cli_url ≡ false → is_some o.use_logged_in_user ≡ true
  pub token_filled : is_some_and (λ t. str_eq t "") o.tcp_connection_token ≡ false
  pub token_off_stdio : is_some o.tcp_connection_token ≡ true → o.use_stdio ≡ false
  pub listener_guarded :
      is_some o.cli_url ≡ false
      → o.use_stdio ≡ false
      → is_in_process o.connection ≡ false
      → is_some o.tcp_connection_token ≡ true

bind_ok {ℓ κ μ} :
    {E : Type ℓ} {A : Type κ} {B : Type μ} (m : Result E A) (f : A → Result E B) (b : B)
    → (m >>= f) ≡ ok b
    → (a : A) × ((m ≡ ok a) × (f a ≡ ok b))
bind_ok (ok a) f b h = (a, (refl, h))
bind_ok (err e) f b h = absurd cc

ok_refused : (message : String) (u : Unit {0}) → ¬ (refuse_if true message ≡ ok u)
unfolding refuse_if
ok_refused message u h = cc

refuse_if_ok :
    (bad : Bool) (message : String) (u : Unit {0}) → refuse_if bad message ≡ ok u → bad ≡ false
refuse_if_ok bad message u h =
    elim bad as (λ b. refuse_if b message ≡ ok u → b ≡ false) [
      | true ↦ λ k. absurd (ok_refused message u k)
      | false ↦ λ k. refl
    ]
      h

-- The checks that a constructor which does not throw has passed.
record Passed (o : Options) : Type 0 where
  url_stdio : (is_some o.cli_url && (o.use_stdio || is_some o.cli_path)) ≡ false
  url_token : (is_some o.cli_url && is_some o.github_token) ≡ false
  url_user : (is_some o.cli_url && is_some o.use_logged_in_user) ≡ false
  filled : is_some_and (λ t. str_eq t "") o.tcp_connection_token ≡ false
  off_stdio : (is_some o.tcp_connection_token && o.use_stdio) ≡ false

check_exclusive-Passed : (o : Options) (u : Unit {0}) → check_exclusive o ≡ ok u → Passed o
unfolding check_exclusive
check_exclusive-Passed o u h =
    let (u₁, (e₁, h₁)) = bind_ok (refuse_if _ _) _ u h in
    let (u₂, (e₂, h₂)) = bind_ok (refuse_if _ _) _ u h₁ in
    let (u₃, (e₃, h₃)) = bind_ok (refuse_if _ _) _ u h₂ in
    let (u₄, (e₄, h₄)) = bind_ok (refuse_if _ _) _ u h₃ in
    record {
      url_stdio = refuse_if_ok _ _ u₁ e₁;
      url_token = refuse_if_ok _ _ u₂ e₂;
      url_user = refuse_if_ok _ _ u₃ e₃;
      filled = refuse_if_ok _ _ u₄ e₄;
      off_stdio = refuse_if_ok _ _ u h₄;
    }

module _ (is_absolute : String → Bool) (uuid : String) (nonempty : str_eq uuid "" ≡ false) where
  finish-IsValid : (o : Options) → Passed o → IsValid (mint_token uuid (default_user o))
  unfolding mint_token default_user
  finish-IsValid o p = record {
    external_only = λ h. ground (arith, p.url_stdio, p.url_token, p.url_user, h);
    user_decided = λ h. ground (arith, h);
    token_filled = ground (arith, nonempty, p.filled);
    token_off_stdio = λ h. ground (arith, h, p.off_stdio);
    listener_guarded = λ h s i. ground (arith, h, s, i);
  }

  -- A constructor that does not throw leaves options that are valid: with a URL of an external
  -- server, no runtime path, no stdio, no token and no login of its own; without one, the login
  -- decided, a connection token off stdio only, never empty, and always there when a runtime of its
  -- own listens on a port. This supposes that the text of a fresh UUID is not empty.
  pub configure-IsValid :
      (options o : Options) → configure is_absolute uuid options ≡ ok o → IsValid o
  unfolding configure
  configure-IsValid options o h =
      let (u, (e, h₁)) = bind_ok (check_plain is_absolute uuid (apply_aliases options)) _ o h in
      let (o₁, (e₁, h₂)) = bind_ok (apply_connection (apply_aliases options)) _ o h₁ in
      let (u₂, (e₂, h₃)) = bind_ok (check_exclusive o₁) _ o h₂ in
      let same : mint_token uuid (default_user o₁) ≡ o = cc in
      rw (← same) (finish-IsValid o₁ (check_exclusive-Passed o₁ u₂ e₂))
