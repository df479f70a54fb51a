-- ===== src/Machine/Due.antt =====
-- machine.go: the check cadence.
use incident_controller.Prelude.{◌+◌, ◌≤◌, ◌≡◌, ◌≢◌, ◌⊎◌, true, Option, none, some, arith}
use incident_controller.Api.Meta.{Time}
use incident_controller.Api.Incident.{Incident, Script}
use incident_controller.Platform.{Platform}
use incident_controller.Machine.Output.{Config}
use incident_controller.Machine.Checks.{current_script}
use incident_controller.Machine.Cadence.{check_due}

abbrev window_start : Option Time → Time
window_start none = 0
window_start (some v) = v

module _ ⦃p : Platform⦄ where
  -- A check that is due runs a script, a poll interval after the last run's end and after the
  -- start of the settle window, where those are known.
  pub check_due-spaced :
      (inc : Incident) (cfg : Config) (last_run now : Time)
      → check_due inc cfg last_run now ≡ true
      → (current_script inc ≢ Script.unset)
        × ((last_run ≡ 0) ⊎ (last_run + cfg.poll_interval ≤ now))
        × ((window_start inc.status.verifying_since ≡ 0)
            ⊎ (window_start inc.status.verifying_since + cfg.poll_interval ≤ now))
  unfolding check_due
  check_due-spaced inc cfg last_run now h = ground arith

  -- The check of a running script falls due, and stays so: at the latest a poll interval after
  -- both starts.
  pub check_due-reached :
      (inc : Incident) (cfg : Config) (last_run now : Time)
      → current_script inc ≢ Script.unset
      → last_run + cfg.poll_interval ≤ now
      → window_start inc.status.verifying_since + cfg.poll_interval ≤ now
      → check_due inc cfg last_run now ≡ true
  unfolding check_due
  check_due-reached inc cfg last_run now h a b = ground arith
