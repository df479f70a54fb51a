-- ===== src/Incident/Settled.antt =====
-- incident.go: an incident that one Observe has brought up to date stays so.
use incident_controller.Prelude.{◌⊎◌, some, true, false, List, [], ◌∷◌, ◌≡◌, if◌then◌else◌}
use incident_controller.Api.Meta.{was_deleted, Time}
use incident_controller.Api.Incident.{Incident, State}
use incident_controller.Api.Pod.{Pod}
use incident_controller.Platform.{Platform}
use incident_controller.Machine.Output.{Config}
use incident_controller.Machine.Checks.{current_script}
use incident_controller.Incident.Observe.{Reconcile}
use incident_controller.Incident.LastRuns.{LastRuns}
use incident_controller.CheckPod.ResultOf.{result_of}
use incident_controller.Incident.Plan.{new_plan}

-- The pods that are not being deleted.
abbrev pub alive : List Pod → List Pod
alive [] = []
alive (pod ∷ pods) = if was_deleted pod.meta then alive pods else pod ∷ alive pods

module _ ⦃p : Platform⦄ where
  -- A pod whose run is not done, of the script that the incident runs.
  abbrev pub IsRunning : Config → Time → Incident → Pod → Type 0
  IsRunning cfg now inc pod =
      let (r, done) = result_of pod cfg.check_timeout now in
      (done ≡ false) × (r.script ≡ current_script inc)

  -- No pod is left but for those being deleted, or one that runs.
  abbrev pub Waits : Config → Time → Incident → List Pod → Type 0
  Waits cfg now inc pods =
      (alive pods ≡ []) ⊎ ((q : Pod) × (alive pods ≡ q ∷ []) × IsRunning cfg now inc q)

  abbrev running_on : Reconcile → Pod → Reconcile
  running_on s pod = record s { plan = record (s.plan) { live = some pod } }

  -- The spec is as it was, and a closed one has been acted on.
  abbrev Obeyed : Incident → Incident → Type 0
  Obeyed before inc =
      (inc.spec ≡ before.spec) × (before.spec.closed ≡ true → inc.status.state ≡ State.closed)

  abbrev fresh : Incident → LastRuns → Reconcile
  fresh inc runs = record { inc = inc; plan = new_plan [] false; runs = runs }

  abbrev pub reset : Incident → Incident
  reset inc = record inc { spec = record (inc.spec) { applied = false } }
