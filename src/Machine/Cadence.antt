-- ===== src/Machine/Cadence.antt =====
-- machine.go: when the next check may start.
use incident_controller.Prelude.{Bool, not, ◌&&◌, ◌+◌, none, some, ltb, ◌==◌, if◌then◌else◌}
use incident_controller.Api.Meta.{Time, Duration}
use incident_controller.Api.Incident.{Incident, Script, script_eq}
use incident_controller.Platform.{Platform}
use incident_controller.Machine.Output.{Config}
use incident_controller.Machine.Checks.{current_script}

unfoldable pub check_from : Incident → Time → Time
check_from inc last_run = elim inc.status.verifying_since [
  | none ↦ last_run
  | some v ↦ if ltb last_run v then v else last_run
]

-- The zero time when no check has run.
unfoldable pub next_check_at : Incident → Time → Duration → Time
unfolding check_from
next_check_at inc last_run poll =
    let from = check_from inc last_run in if from == 0 then from else from + poll

module _ ⦃p : Platform⦄ where
  unfoldable pub check_due : Incident → Config → Time → Time → Bool
  unfolding next_check_at
  check_due inc cfg last_run now =
      not (script_eq (current_script inc) Script.unset)
      && not (ltb now (next_check_at inc last_run cfg.poll_interval))
