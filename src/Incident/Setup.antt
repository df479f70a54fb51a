-- ===== src/Incident/Setup.antt =====
-- incident.go: Setup and Connect, and the requeue hook as the reconciler calls it.
use incident_controller.Prelude.{Text, Option, none, some, ◌≡◌, ◌≢◌, ◌≤◌, ◌<◌, ◌+◌, true, arith}
use incident_controller.Api.Meta.{Time, Duration, second}
use incident_controller.Api.Incident.{Incident, Script}
use incident_controller.Api.Managed.{Managed, managed_incident, managed_apply, managed_other}
use incident_controller.Platform.{Platform}
use incident_controller.Machine.Output.{Config}
use incident_controller.Machine.Checks.{current_script}
use incident_controller.Machine.Cadence.{check_due, next_check_at}
use incident_controller.CheckPod.Sandbox.{CheckPods}
use incident_controller.Incident.LastRuns.{LastRuns, poll_interval_hook}
use incident_controller.Incident.Requeue.{poll_interval_hook-on_time}
use incident_controller.Program.Options.{ControllerOptions, IncidentOptions}

-- `connector` and `external`, but for the clients, the logger and the recorder. The lastRuns that
-- both point to is the state of the program, and an argument of what reads it.
pub record Connector : Type 0 where
  pub cfg : Config
  pub pods : CheckPods

pub record External : Type 0 where
  pub cfg : Config
  pub pods : CheckPods

-- What Setup registers with the manager.
pub record Registration : Type 0 where
  pub connecter : Connector
  pub poll_interval : Duration
  pub timeout : Duration
  pub controller : ControllerOptions

pub data Setup : Type 0 where
  registered : Registration → Setup
  recorder_not_created not_completed : Text → Setup

abbrev registration_of : Config → IncidentOptions → Registration
registration_of cfg o = record {
  connecter = record { cfg = cfg; pods = o.pods };
  poll_interval = cfg.poll_interval;
  timeout = o.controller.timeout;
  controller = o.controller;
}

abbrev completed : Registration → Option Text → Setup
completed r none = registered r
completed r (some e) = not_completed e

-- The event recorder and the builder of the manager answer with an error or none.
unfoldable pub setup : Option Text → (Registration → Option Text) → IncidentOptions → Setup
setup (some e) complete o = recorder_not_created e
setup none complete o =
    let cfg = record (o.checks) { poll_interval = o.controller.poll_interval } in
    completed (registration_of cfg o) (complete (registration_of cfg o))

-- An error is that the resource is not an Incident.
unfoldable pub connect : Connector → Managed → Option External
connect c (managed_incident inc) = some (record { cfg = c.cfg; pods = c.pods })
connect c (managed_apply ia) = none
connect c (managed_other m) = none

setup-poll_interval :
    (recorder : Option Text) (complete : Registration → Option Text) (o : IncidentOptions)
    (r : Registration) (e : External) (inc : Incident)
    → setup recorder complete o ≡ registered r
    → connect r.connecter (managed_incident inc) ≡ some e
    → e.cfg.poll_interval ≡ r.poll_interval
unfolding setup connect
setup-poll_interval recorder complete o r e inc s c = ground arith

module _ ⦃p : Platform⦄ where
  unfoldable pub hook : LastRuns → Managed → Time → Duration → Duration
  unfolding poll_interval_hook
  hook l (managed_incident inc) now poll = poll_interval_hook l inc now poll
  hook l (managed_apply ia) now poll = poll
  hook l (managed_other m) now poll = poll

  -- In a controller that was set up, the wait that the reconciler gets from the hook, which it calls
  -- with its own poll interval, ends when the check of the incident is due to the external that
  -- Connect makes for it: where a check is still to fall due within a poll interval, it is due when
  -- the incident comes back, and that is less than a second after it fell due.
  pub setup-on_time :
      (recorder : Option Text) (complete : Registration → Option Text) (o : IncidentOptions)
      (r : Registration) (e : External) (l : LastRuns) (inc : Incident) (now : Time)
      → setup recorder complete o ≡ registered r
      → connect r.connecter (managed_incident inc) ≡ some e
      → current_script inc ≢ Script.unset
      → let due = next_check_at inc (l inc.meta.uid) e.cfg.poll_interval in
        let back = now + hook l (managed_incident inc) now r.poll_interval in
        now < due
        → due ≤ now + r.poll_interval
        → second ≤ r.poll_interval
        → (check_due inc e.cfg (l inc.meta.uid) back ≡ true) × (back < due + second)
  unfolding hook
  setup-on_time recorder complete o r e l inc now s c k m n b =
      let same = setup-poll_interval recorder complete o r e inc s c in
      ground (arith, poll_interval_hook-on_time l inc e.cfg now k)
