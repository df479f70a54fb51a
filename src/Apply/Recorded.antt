-- ===== src/Apply/Recorded.antt =====
-- apply.go: an Update that reports no error has made every call that its plan asks for.
use incident_controller.Prelude.{◌⊎◌, true, some, List, ◌≡◌, In, Text}
use incident_controller.Api.Incident.{Incident}
use incident_controller.Api.IncidentApply.{IncidentApply, reason_apply_finished}
use incident_controller.Api.Pod.{Pod}
use incident_controller.Platform.{Platform}
use incident_controller.Server.{Server, Call, Fetched, found, delete_pod, delete_apply, emit, warn}
use incident_controller.Answered.{StatusWritten, Patched, Deleted}
use incident_controller.Machine.Output.{Result}
use incident_controller.Machine.Verdicts.{record_apply}
use incident_controller.Incident.Steps.{Told}
use incident_controller.Apply.Plan.{ApplyPlan}

-- The history has the event of a finished request.
pub HasEvent : List Call → Type 0
HasEvent h =
    (m : Text) × (In (emit reason_apply_finished m) h ⊎ In (warn reason_apply_finished m) h)

module _ ⦃p : Platform⦄ ⦃srv : Server⦄ where
  -- The server took the status of the incident with the run in it, and its events were sent.
  abbrev Noted : Incident → Result → Text → List Call → Type 0
  Noted inc r by h = StatusWritten (record_apply inc r by).0 h × Told (record_apply inc r by).1 h

  -- What a recorded run leaves: the status of an incident that is there and that the run changes.
  pub IsRecorded : IncidentApply → Result → Fetched Incident → List Call → Type 0
  IsRecorded ia r read h =
      (inc : Incident)
      → read ≡ found inc
      → (record_apply inc r ia.spec.requested_by.username).2 ≡ true
      → Noted inc r ia.spec.requested_by.username h

  -- A history with all that the plan of a request asks for.
  pub record Settled (plan : ApplyPlan) (ia : IncidentApply) (h₀ h : List Call) : Type 0 where
    pub recorded :
        (r : Result)
        → plan.run ≡ some r
        → IsRecorded ia r (srv.get_incident h₀ ia.meta.namespace ia.spec.incident_ref.name) h
    pub status : plan.dirty ≡ true → Patched plan.base ia h × (plan.finished ≡ true → HasEvent h)
    pub pod : (pod : Pod) → plan.pod ≡ some pod → Deleted (delete_pod pod) h
    pub expired : plan.expired ≡ true → (i : IncidentApply) × Deleted (delete_apply i) h
