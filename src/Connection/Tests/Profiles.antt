-- ===== src/Connection/Tests/Profiles.antt =====
-- Validation, device matching and the state machine on concrete values.
use network_manager_rs.Common.{◌≡◌, refl, ◌↔◌, ok}
use network_manager_rs.Connection.State.{
  disconnected, activated, preparing, configuring, activating, transition_to, can_transition_to,
}
use network_manager_rs.Connection.State.Lifecycle.{Walk, here, step}
use network_manager_rs.Connection.Profile.{validate}
use network_manager_rs.Connection.Profile.Validate.{IsValid, validate_iff}
use network_manager_rs.Connection.Tests.Data.{home}

validate_iff_example : (validate home ≡ ok tt) ↔ IsValid home
validate_iff_example = validate_iff home

way_up : Walk disconnected activated 4
unfolding transition_to can_transition_to
way_up =
    step {t = preparing} refl
      (step {t = configuring} refl (step {t = activating} refl (step refl here)))
