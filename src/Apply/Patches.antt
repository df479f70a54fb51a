-- ===== src/Apply/Patches.antt =====
-- apply.go: what Create and Update write of a request.
use incident_controller.Prelude.{
  some, List, [], ◌∷◌, ◌≡◌, arith, All, In, inl, inr, Text, Option-cases,
}
use incident_controller.Api.Meta.{Duration}
use incident_controller.Api.Incident.{Incident}
use incident_controller.Api.IncidentApply.{IncidentApply}
use incident_controller.Api.Pod.{Pod}
use incident_controller.Platform.{Platform}
use incident_controller.Calls.{bind-All, In-All}
use incident_controller.Server.{
  Server, Call, create_pod, emit, patch_apply, update_status, Fetched-cases,
}
use incident_controller.Machine.Output.{Result}
use incident_controller.Machine.Transitions.{Change}
use incident_controller.Machine.Verdicts.{record_apply}
use incident_controller.Incident.Update.{announce_all}
use incident_controller.CheckPod.Sandbox.{CheckPods, apply_pod}
use incident_controller.Apply.Admission.{ApplyStart}
use incident_controller.Apply.Plan.{ApplyPlan}
use incident_controller.Apply.Carry.{
  create_apply, announce_finished, record_changes, record_on_incident, record_run_of, persist_apply,
  delete_run_pod, delete_expired, update_apply,
}

-- A call that patches a request patches it to this one.
abbrev pub PatchesTo : IncidentApply → Call → Type 0
PatchesTo ia (patch_apply base new) = new ≡ ia
PatchesTo ia _ = Unit {0}

module _ ⦃srv : Server⦄ where
  -- A Create that asks for a pod has a run to start, and asks for the apply pod of the request.
  pub create_apply-In :
      (pods : CheckPods) (timeout : Duration) (plan : ApplyPlan) (ia : IncidentApply) (pod : Pod)
      → In (create_pod pod) (create_apply pods timeout plan ia []).1
      → ((start : ApplyStart) × (plan.start ≡ some start)) × (pod ≡ apply_pod pods ia timeout)
  unfolding create_apply
  create_apply-In pods timeout plan ia pod i = elim (Option-cases plan.start) [
    | inl n ↦ absurd (ground (arith, n))
    | inr (start, s) ↦ ((start, s), ground (arith, s))
  ]

module _ ⦃p : Platform⦄ ⦃srv : Server⦄ (ia : IncidentApply) where
  announce_all-All :
      (cs : List Change) (h : List Call)
      → All (PatchesTo ia) h
      → All (PatchesTo ia) (announce_all cs h).1
  unfolding announce_all
  announce_all-All [] h a = a
  announce_all-All (c ∷ cs) h a = announce_all-All cs (emit c.reason c.message ∷ h) (tt, a)

  record_changes-All :
      (inc : Incident) (r : Result) (by : Text) (h : List Call)
      → All (PatchesTo ia) h
      → All (PatchesTo ia) (record_changes inc r by h).1
  unfolding record_changes
  record_changes-All inc r by h a = ground (
    arith,
    announce_all-All (record_apply inc r by).1 (update_status (record_apply inc r by).0 ∷ h),
  )

  record_run_of-All :
      (plan : ApplyPlan) (by : IncidentApply) → All (PatchesTo ia) (record_run_of plan by []).1
  unfolding record_run_of record_on_incident
  record_run_of-All plan by = elim (Option-cases plan.run) [
    | inl e ↦ ground (arith, e)
    | inr (r, e) ↦
        elim (Fetched-cases (srv.get_incident [] by.meta.namespace by.spec.incident_ref.name)) [
          | inl (inc, f) ↦
              ground (arith, e, f, record_changes-All inc r by.spec.requested_by.username [])
          | inr (x, f) ↦ ground (arith, e, f)
        ]
  ]

  persist_apply-All :
      (plan : ApplyPlan) (h : List Call)
      → All (PatchesTo ia) h
      → All (PatchesTo ia) (persist_apply plan ia h).1
  unfolding persist_apply announce_finished
  persist_apply-All plan h a = ground arith

  delete_run_pod-All :
      (plan : ApplyPlan) (h : List Call)
      → All (PatchesTo ia) h
      → All (PatchesTo ia) (delete_run_pod plan h).1
  unfolding delete_run_pod
  delete_run_pod-All plan h a = ground arith

  delete_expired-All :
      (plan : ApplyPlan) (old : IncidentApply) (h : List Call)
      → All (PatchesTo ia) h
      → All (PatchesTo ia) (delete_expired plan old h).1
  unfolding delete_expired
  delete_expired-All plan old h a = ground arith

  -- An Update patches a request to what Observe left in memory.
  update_apply-All : (plan : ApplyPlan) → All (PatchesTo ia) (update_apply plan ia []).1
  unfolding update_apply
  update_apply-All plan =
      bind-All (PatchesTo ia) (record_run_of plan ia []) _ (record_run_of-All plan ia) λ _ h a.
        bind-All (PatchesTo ia) (persist_apply plan ia h) _ (persist_apply-All plan h a)
          λ after h' a'.
            bind-All (PatchesTo ia) (delete_run_pod plan h') _ (delete_run_pod-All plan h' a')
              λ _ h'' a''. delete_expired-All plan after h'' a''

  pub update_apply-patch :
      (plan : ApplyPlan) (base new : IncidentApply)
      → In (patch_apply base new) (update_apply plan ia []).1
      → new ≡ ia
  update_apply-patch plan base new i =
      In-All (PatchesTo ia) (patch_apply base new) (update_apply plan ia []).1 i
        (update_apply-All plan)
