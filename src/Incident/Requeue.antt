-- ===== src/Incident/Requeue.antt =====
-- incident.go: lastRuns keeps the latest end of an incident's runs, and the requeue hook.
use incident_controller.Prelude.{
  text_eq_iff, if◌then◌else◌, ◌+◌, ◌≤◌, ◌<◌, Text, true, List, [], ◌∷◌, ◌≡◌, ◌≢◌, refl, arith,
  text_eq,
}
use Prim.Native.Nat.{max}
use incident_controller.Api.Meta.{Time, Duration, second}
use incident_controller.Api.Incident.{Incident, Script}
use incident_controller.Platform.{Platform}
use incident_controller.Machine.Output.{Config}
use incident_controller.Machine.Checks.{current_script}
use incident_controller.Machine.Cadence.{check_due, next_check_at}
use incident_controller.Incident.LastRuns.{LastRuns, new_last_runs, seen, poll_interval_hook}

-- The ends of runs seen in turn, each of an incident; the list has the newest first.
pub all_seen : List (Text × Time) → LastRuns
all_seen [] = new_last_runs
all_seen ((uid, at) ∷ older) = seen (all_seen older) uid at

-- The latest end of an incident's runs, 0 where it had none.
pub latest_end : Text → List (Text × Time) → Time
latest_end uid [] = 0
latest_end uid ((u, at) ∷ older) =
    if text_eq uid u then max at (latest_end uid older) else latest_end uid older

-- Whatever order the ends of runs are seen in, lastRuns reads the latest end of each incident.
pub all_seen-latest_end :
    (runs : List (Text × Time)) (uid : Text) → all_seen runs uid ≡ latest_end uid runs
unfolding all_seen latest_end seen new_last_runs
all_seen-latest_end [] uid = refl
all_seen-latest_end ((u, at) ∷ older) uid =
    ground (arith, all_seen-latest_end older uid, all_seen-latest_end older u, text_eq_iff uid u)

module _ ⦃p : Platform⦄ where
  -- The hook asks for a second at least and the poll interval at most, where that is a second.
  pub poll_interval_hook-bounds :
      (l : LastRuns) (inc : Incident) (now : Time) (poll : Duration)
      → second ≤ poll
      → (second ≤ poll_interval_hook l inc now poll) × (poll_interval_hook l inc now poll ≤ poll)
  unfolding poll_interval_hook
  poll_interval_hook-bounds l inc now poll h = ground arith

  -- A check that is still to fall due is due when the incident comes back, if that is within a
  -- poll interval; and it comes back no more than a second late.
  pub poll_interval_hook-on_time :
      (l : LastRuns) (inc : Incident) (cfg : Config) (now : Time)
      → current_script inc ≢ Script.unset
      → let poll = cfg.poll_interval in
        let last_run = l inc.meta.uid in
        let due = next_check_at inc last_run poll in
        let back = now + poll_interval_hook l inc now poll in
        now < due
        → due ≤ now + poll
        → second ≤ poll
        → (check_due inc cfg last_run back ≡ true) × (back < due + second)
  unfolding poll_interval_hook check_due
  poll_interval_hook-on_time l inc cfg now h k m n = ground arith
