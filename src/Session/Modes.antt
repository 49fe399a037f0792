-- ===== src/Session/Modes.antt =====
-- src/session.cpp: the wire names of the modes and of the tiers of automatic routing.
use copilot_cpp.Prelude.{Option, none, some, String, List, [], ◌∷◌, ◌≡◌, refl}
use copilot_cpp.Prelude.Text.{lookup}
use copilot_cpp.Json.{Json, IsLawful}

-- `Session::AutoTier` and `Session::Mode`
pub data AutoTier : Type 0 where
  efficiency balance intelligence fast : AutoTier

pub data Mode : Type 0 where
  interactive plan autopilot : Mode

unfoldable pub auto_tier_wire : AutoTier → String
auto_tier_wire efficiency = "efficiency"
auto_tier_wire balance = "balance"
auto_tier_wire intelligence = "intelligence"
auto_tier_wire fast = "fast"

unfoldable pub auto_tier_from_text : String → Option AutoTier
auto_tier_from_text text = lookup text (
    ("efficiency", efficiency)
    ∷ ("balance", balance)
    ∷ ("intelligence", intelligence)
    ∷ ("fast", fast)
    ∷ [])

unfoldable pub mode_to_wire : Mode → String
mode_to_wire interactive = "interactive"
mode_to_wire plan = "plan"
mode_to_wire autopilot = "autopilot"

unfoldable pub mode_from_wire : String → Option Mode
mode_from_wire s =
    lookup s (("interactive", interactive) ∷ ("plan", plan) ∷ ("autopilot", autopilot) ∷ [])

module _ (J : Json) where
  open J use {Value, null, text, object, get_string, at}

  -- auto_tier_from_wire
  unfoldable pub auto_tier_from_wire : Value → Option AutoTier
  unfolding auto_tier_from_text
  auto_tier_from_wire v = elim (get_string v) [ none ↦ none | some s ↦ auto_tier_from_text s ]

  -- set_auto_tier: the parameters; null stands for the default of the provider
  unfoldable pub auto_tier_params : String → Option AutoTier → Value
  unfolding auto_tier_wire
  auto_tier_params id tier =
      let wire : Value = elim tier [ none ↦ null | some t ↦ text (auto_tier_wire t) ] in
      object (("sessionId", text id) ∷ ("autoTier", wire) ∷ [])

  -- set_mode: the parameters
  unfoldable pub mode_params : String → Mode → Value
  unfolding mode_to_wire
  mode_params id m = object (("sessionId", text id) ∷ ("mode", text (mode_to_wire m)) ∷ [])

  -- get_mode: the text of the member, and the mode of the text
  unfoldable pub text_of_member : Option Value → Option String
  text_of_member none = none
  text_of_member (some v) = get_string v

  unfoldable pub mode_or_interactive : Option Mode → Mode
  mode_or_interactive none = interactive
  mode_or_interactive (some m) = m

  unfoldable pub mode_of_text : Option String → Mode
  unfolding mode_or_interactive mode_from_wire
  mode_of_text none = interactive
  mode_of_text (some s) = mode_or_interactive (mode_from_wire s)

  -- get_mode: the response
  unfoldable pub read_mode : Value → Mode
  unfolding text_of_member mode_of_text
  read_mode response = mode_of_text (text_of_member (at response "mode"))

auto_tier_from_text-wire : (t : AutoTier) → auto_tier_from_text (auto_tier_wire t) ≡ some t
unfolding auto_tier_from_text auto_tier_wire
auto_tier_from_text-wire efficiency = refl
auto_tier_from_text-wire balance = refl
auto_tier_from_text-wire intelligence = refl
auto_tier_from_text-wire fast = refl

mode_from_wire-to_wire : (m : Mode) → mode_from_wire (mode_to_wire m) ≡ some m
unfolding mode_from_wire mode_to_wire
mode_from_wire-to_wire interactive = refl
mode_from_wire-to_wire plan = refl
mode_from_wire-to_wire autopilot = refl

module _ (J : Json) ⦃lawful : IsLawful J⦄ where
  open J use {object, text}

  -- What set_mode sends under the key mode is read back by get_mode as the same mode.
  pub mode_round_trip : (id : String) (m : Mode) → read_mode J (mode_params J id m) ≡ m
  unfolding read_mode mode_params text_of_member mode_of_text mode_or_interactive
  mode_round_trip id m =
      let members : List (String × Json.Value J) =
        ("sessionId", text id) ∷ ("mode", text (mode_to_wire m)) ∷ [] in
      rw
        (
          IsLawful.at-object lawful members "mode",
          IsLawful.get_string-text lawful (mode_to_wire m),
          mode_from_wire-to_wire m,
        )
        refl
