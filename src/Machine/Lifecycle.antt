-- ===== src/Machine/Lifecycle.antt =====
-- machine.go and the field comments of types.go: what holds of a status between two reconciles,
-- and which way an incident moves.
use incident_controller.Prelude.{Text, Bool, true, false, Option, none, some, ◌≡◌, arith}
use incident_controller.Api.Meta.{Time}
use incident_controller.Api.Incident.{Incident, IncidentStatus, Resolution, ResolvedBy, State}
use incident_controller.Platform.{Platform}
use incident_controller.Machine.Output.{Config, Result}
use incident_controller.Machine.Checks.{current_script}
use incident_controller.Machine.Transitions.{apply_spec}
use incident_controller.Machine.Verdicts.{record_result, record_apply}

abbrev window_fits : State → Option Time → Bool
window_fits State.verifying since = true
window_fits _ none = true
window_fits _ (some _) = false

abbrev is_by : ResolvedBy → ResolvedBy → Bool
is_by ResolvedBy.verify ResolvedBy.verify = true
is_by ResolvedBy.user ResolvedBy.user = true
is_by _ _ = false

abbrev resolution_fits : State → Option Resolution → Bool
resolution_fits State.resolved (some r) = is_by r.by ResolvedBy.verify
resolution_fits State.closed (some r) = is_by r.by ResolvedBy.user
resolution_fits State.resolved none = false
resolution_fits State.closed none = false
resolution_fits _ (some _) = false
resolution_fits _ none = true

-- verifyingSince is set only while Verifying; a resolution is set exactly when the state is
-- Resolved, by verify, or Closed, by a user.
pub record IsWellFormed (s : IncidentStatus) : Type 0 where
  pub window : window_fits s.state s.verifying_since ≡ true
  pub ended : resolution_fits s.state s.resolution ≡ true

module _ ⦃p : Platform⦄ where
  pub apply_spec-IsWellFormed :
      (inc : Incident) (now : Time)
      → IsWellFormed inc.status
      → IsWellFormed (apply_spec inc now).0.status
  unfolding apply_spec
  apply_spec-IsWellFormed inc now v = ground arith

  pub record_result-IsWellFormed :
      (inc : Incident) (cfg : Config) (r : Result) (now : Time)
      → r.script ≡ current_script inc
      → IsWellFormed inc.status
      → IsWellFormed (record_result inc cfg r now).0.status
  unfolding record_result current_script
  record_result-IsWellFormed inc cfg r now h v = ground arith

  -- Recording an apply run keeps a status well formed.
  pub record_apply-IsWellFormed :
      (inc : Incident) (r : Result) (by : Text)
      → IsWellFormed inc.status
      → IsWellFormed (record_apply inc r by).0.status
  unfolding record_apply
  record_apply-IsWellFormed inc r by v = ground arith
