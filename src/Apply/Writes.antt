-- ===== src/Apply/Writes.antt =====
-- apply.go: what an Update of a request writes as the status of its incident.
use incident_controller.Prelude.{
  some, List, [], ◌∷◌, ◌≡◌, arith, All, In, inl, inr, Option-cases, refl,
}
use incident_controller.Api.Incident.{Incident}
use incident_controller.Api.IncidentApply.{IncidentApply}
use incident_controller.Platform.{Platform}
use incident_controller.Calls.{bind-All, In-All}
use incident_controller.Server.{Server, Call, emit, update_status, Fetched-cases, found}
use incident_controller.Machine.Output.{Result}
use incident_controller.Machine.Transitions.{Change}
use incident_controller.Machine.Verdicts.{record_apply}
use incident_controller.Incident.Update.{announce_all}
use incident_controller.Apply.Plan.{ApplyPlan}
use incident_controller.Apply.Carry.{
  announce_finished, record_changes, record_on_incident, record_run_of, persist_apply,
  delete_run_pod, delete_expired, update_apply,
}

module _ ⦃p : Platform⦄ ⦃srv : Server⦄ (plan : ApplyPlan) (ia : IncidentApply) where
  -- The status of an incident with the run of the plan recorded, as the incident was fetched.
  abbrev pub IsRecorded : Incident → Type 0
  IsRecorded new =
      (inc : Incident) × (r : Result) × (srv.get_incident [] ia.meta.namespace
          ia.spec.incident_ref.name
        ≡ found inc)
      × (plan.run ≡ some r)
      × (new ≡ (record_apply inc r ia.spec.requested_by.username).0)

  abbrev Records : Call → Type 0
  Records (update_status new) = IsRecorded new
  Records _ = Unit {0}

  announce_all-Records :
      (cs : List Change) (h : List Call) → All Records h → All Records (announce_all cs h).1
  unfolding announce_all
  announce_all-Records [] h a = a
  announce_all-Records (c ∷ cs) h a = announce_all-Records cs (emit c.reason c.message ∷ h) (tt, a)

  record_changes-Records :
      (inc : Incident) (r : Result)
      → IsRecorded (record_apply inc r ia.spec.requested_by.username).0
      → All Records (record_changes inc r ia.spec.requested_by.username []).1
  unfolding record_changes
  record_changes-Records inc r a =
      let by = ia.spec.requested_by.username in
      ground (
        arith,
        announce_all-Records (record_apply inc r by).1
            (update_status (record_apply inc r by).0 ∷ []),
      )

  record_run_of-Records : All Records (record_run_of plan ia []).1
  unfolding record_run_of record_on_incident
  record_run_of-Records = elim (Option-cases plan.run) [
    | inl e ↦ ground (arith, e)
    | inr (r, e) ↦
        elim (Fetched-cases (srv.get_incident [] ia.meta.namespace ia.spec.incident_ref.name)) [
          | inl (inc, f) ↦ ground (arith, e, f, record_changes-Records inc r (inc, r, f, e, refl))
          | inr (x, f) ↦ ground (arith, e, f)
        ]
  ]

  persist_apply-Records : (h : List Call) → All Records h → All Records (persist_apply plan ia h).1
  unfolding persist_apply announce_finished
  persist_apply-Records h a = ground arith

  delete_run_pod-Records : (h : List Call) → All Records h → All Records (delete_run_pod plan h).1
  unfolding delete_run_pod
  delete_run_pod-Records h a = ground arith

  delete_expired-Records :
      (old : IncidentApply) (h : List Call)
      → All Records h
      → All Records (delete_expired plan old h).1
  unfolding delete_expired
  delete_expired-Records old h a = ground arith

  update_apply-All : All Records (update_apply plan ia []).1
  unfolding update_apply
  update_apply-All = bind-All Records (record_run_of plan ia []) _ record_run_of-Records λ _ h a.
      bind-All Records (persist_apply plan ia h) _ (persist_apply-Records h a) λ after h' a'.
        bind-All Records (delete_run_pod plan h') _ (delete_run_pod-Records h' a')
          λ _ h'' a''. delete_expired-Records after h'' a''

  -- An Update of a request writes the status of an incident only as it was fetched, with the run
  -- of the plan recorded.
  pub update_apply-status :
      (new : Incident) → In (update_status new) (update_apply plan ia []).1 → IsRecorded new
  update_apply-status new i =
      In-All Records (update_status new) (update_apply plan ia []).1 i update_apply-All
