-- ===== src/Incident/LastRuns.antt =====
-- incident.go: lastRuns, when each incident's last check ended, and the requeue hook that reads
-- it. A lock makes each operation one step.
use incident_controller.Prelude.{◌-◌, Text, text_eq, ltb, leb, if◌then◌else◌}
use incident_controller.Api.Meta.{Time, Duration, second}
use incident_controller.Api.Incident.{Incident, Script, script_eq}
use incident_controller.Platform.{Platform}
use incident_controller.Machine.Checks.{current_script}
use incident_controller.Machine.Cadence.{next_check_at}

-- The map, read at a UID: a missing key reads as the zero time.
abbrev pub LastRuns : Type 0
LastRuns = Text → Time

unfoldable pub new_last_runs : LastRuns
new_last_runs uid = 0

abbrev put : LastRuns → Text → Time → LastRuns
put l uid at u = if text_eq u uid then at else l u

-- A run that ended at `at`, unless a later one is known.
unfoldable pub seen : LastRuns → Text → Time → LastRuns
seen l uid at = if ltb (l uid) at then put l uid at else l

unfoldable pub forget : LastRuns → Text → LastRuns
forget l uid = put l uid 0

-- The `switch` of pollIntervalHook, where the check falls due at `due`.
abbrev requeue : Time → Time → Duration → Duration
requeue due now poll =
    if leb due now
    then poll
    else if ltb (due - now) second
    then second
    else if ltb poll (due - now)
    then poll
    else due - now

module _ ⦃p : Platform⦄ where
  unfoldable pub poll_interval_hook : LastRuns → Incident → Time → Duration → Duration
  unfolding next_check_at
  poll_interval_hook l inc now poll =
      if script_eq (current_script inc) Script.unset
      then poll
      else requeue (next_check_at inc (l inc.meta.uid) poll) now poll
