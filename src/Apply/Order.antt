-- ===== src/Apply/Order.antt =====
-- apply.go: the order in which Create and Update make their calls.
use incident_controller.Prelude.{
  inr, inl, Option-cases, ℕ, true, some, List, [], ◌∷◌, ◌≡◌, refl, arith, All, Text, bytes, text_eq,
  text_eq_refl, if◌then◌else◌,
}
use incident_controller.Api.Meta.{Duration}
use incident_controller.Api.Incident.{Incident}
use incident_controller.Api.IncidentApply.{IncidentApply, reason_apply_finished}
use incident_controller.Platform.{Platform}
use incident_controller.Calls
use incident_controller.Server.{
  Fetched-cases, Server, Call, Fault, err, fault, update_status, delete_pod, create_pod,
  create_config_map, create_secret, patch_apply, delete_apply, emit, warn, apply_run_not_recorded,
  found,
}
use incident_controller.Machine.Output.{Result}
use incident_controller.Machine.Transitions.{Change}
use incident_controller.Machine.Verdicts.{record_apply}
use incident_controller.CheckPod.Sandbox.{CheckPods}
use incident_controller.Incident.Update.{announce_all}
use incident_controller.Apply.Plan.{ApplyPlan}
use incident_controller.Apply.Carry.{
  create_apply, announce_finished, record_changes, record_on_incident, record_run_of, persist_apply,
  delete_run_pod, delete_expired, update_apply,
}

-- The event of a finished request, or one of an incident.
abbrev event_place : Text → ℕ
event_place reason = if text_eq reason reason_apply_finished then 3 else 1

-- The place of a call in an Update of a request, which makes no other call.
abbrev pub apply_place : Call → ℕ
apply_place (update_status _) = 0
apply_place (emit reason _) = event_place reason
apply_place (warn reason _) = event_place reason
apply_place (patch_apply _ _) = 2
apply_place (delete_pod _) = 4
apply_place (delete_apply _) = 5
apply_place _ = 6

-- The place of a call in a Create of a request, which makes no other call.
abbrev pub create_place : Call → ℕ
create_place (create_pod _) = 0
create_place (create_secret _) = 1
create_place (create_config_map _) = 2
create_place _ = 3

module _ ⦃srv : Server⦄ where
  -- One Create makes its calls in order, on every path: the pod, the Secret and the ConfigMap.
  pub create_apply-InOrder :
      (pods : CheckPods) (timeout : Duration) (plan : ApplyPlan) (ia : IncidentApply)
      → Calls.InOrder create_place 2 (create_apply pods timeout plan ia []).1
  unfolding create_apply
  create_apply-InOrder pods timeout plan ia = ground arith

module _ ⦃p : Platform⦄ where
  -- The changes that an apply run announces are state changes.
  abbrev IsStateChange : Change → Type 0
  IsStateChange c = c.reason ≡ bytes "StateChanged"

  record_apply-All :
      (inc : Incident) (r : Result) (by : Text) → All IsStateChange (record_apply inc r by).1
  unfolding record_apply
  record_apply-All inc r by = ground arith

  event_place-state_change : (c : Change) → IsStateChange c → event_place c.reason ≡ 1
  unfolding reason_apply_finished bytes text_eq
  event_place-state_change c e = rw e refl

  announce_all-InOrder :
      (cs : List Change) (h : List Call)
      → All IsStateChange cs
      → Calls.InOrder apply_place 1 h
      → Calls.InOrder apply_place 1 (announce_all cs h).1
  unfolding announce_all
  announce_all-InOrder [] h a o = o
  announce_all-InOrder (c ∷ cs) h a o =
      let e = event_place-state_change c a.0 in
      announce_all-InOrder cs (emit c.reason c.message ∷ h) a.1 (omega (arith, e), rw e o)

module _ ⦃p : Platform⦄ ⦃srv : Server⦄ where
  record_changes-InOrder :
      (inc : Incident) (r : Result) (by : Text)
      → Calls.InOrder apply_place 1 (record_changes inc r by []).1
  unfolding record_changes
  record_changes-InOrder inc r by = ground (
    arith,
    announce_all-InOrder (record_apply inc r by).1 (update_status (record_apply inc r by).0 ∷ []),
    record_apply-All inc r by,
  )

  record_on_incident-InOrder :
      (ia : IncidentApply) (r : Result) → Calls.InOrder apply_place 1 (record_on_incident ia r []).1
  unfolding record_on_incident
  record_on_incident-InOrder ia r =
      elim (Fetched-cases (srv.get_incident [] ia.meta.namespace ia.spec.incident_ref.name)) [
        | inl (inc, e) ↦
            ground (arith, e, record_changes-InOrder inc r ia.spec.requested_by.username)
        | inr (f, e) ↦ ground (arith, e)
      ]

  record_run_of-InOrder :
      (plan : ApplyPlan) (ia : IncidentApply)
      → Calls.InOrder apply_place 1 (record_run_of plan ia []).1
  unfolding record_run_of
  record_run_of-InOrder plan ia = elim (Option-cases plan.run) [
    | inl e ↦ ground (arith, e)
    | inr (r, e) ↦ ground (arith, e, record_on_incident-InOrder ia r)
  ]

  persist_apply-InOrder :
      (plan : ApplyPlan) (ia : IncidentApply) (h : List Call)
      → Calls.InOrder apply_place 1 h
      → Calls.InOrder apply_place 3 (persist_apply plan ia h).1
  unfolding persist_apply announce_finished
  persist_apply-InOrder plan ia h o = ground (
    arith,
    text_eq_refl reason_apply_finished,
    Calls.InOrder-mono apply_place 1 2 h,
    Calls.InOrder-mono apply_place 1 3 h,
  )

  delete_run_pod-InOrder :
      (plan : ApplyPlan) (h : List Call)
      → Calls.InOrder apply_place 3 h
      → Calls.InOrder apply_place 4 (delete_run_pod plan h).1
  unfolding delete_run_pod
  delete_run_pod-InOrder plan h o = ground (arith, Calls.InOrder-mono apply_place 3 4 h)

  delete_expired-InOrder :
      (plan : ApplyPlan) (ia : IncidentApply) (h : List Call)
      → Calls.InOrder apply_place 4 h
      → Calls.InOrder apply_place 5 (delete_expired plan ia h).1
  unfolding delete_expired
  delete_expired-InOrder plan ia h o = ground (arith, Calls.InOrder-mono apply_place 4 5 h)

  -- One Update of a request makes its calls in order, on every path: the status of the incident,
  -- its events, the status of the request, its event, the delete of the pod, and that of the
  -- request.
  pub update_apply-InOrder :
      (plan : ApplyPlan) (ia : IncidentApply)
      → Calls.InOrder apply_place 5 (update_apply plan ia []).1
  unfolding update_apply
  update_apply-InOrder plan ia =
      Calls.bind-InOrder apply_place 1 5 (record_run_of plan ia []) _ (omega arith)
        (record_run_of-InOrder plan ia)
        λ _ h o.
          Calls.bind-InOrder apply_place 3 5 (persist_apply plan ia h) _ (omega arith)
            (persist_apply-InOrder plan ia h o)
            λ after h' o'.
              Calls.bind-InOrder apply_place 4 5 (delete_run_pod plan h') _ (omega arith)
                (delete_run_pod-InOrder plan h' o')
                λ _ h'' o''. delete_expired-InOrder plan after h'' o''

  -- An Update whose run cannot be recorded on the incident makes no other call: the request and
  -- its pod stay for the next one.
  pub update_apply-recorded_first :
      (plan : ApplyPlan) (ia : IncidentApply) (r : Result) (inc : Incident) (f : Fault)
      → plan.run ≡ some r
      → srv.get_incident [] ia.meta.namespace ia.spec.incident_ref.name ≡ found inc
      → let (after, changes, changed) = record_apply inc r ia.spec.requested_by.username in
        changed ≡ true
        → srv.write_status [] after ≡ fault f
        → update_apply plan ia []
          ≡ (err (apply_run_not_recorded after.meta.name f), update_status after ∷ [])
  unfolding update_apply record_run_of record_on_incident record_changes
  update_apply-recorded_first plan ia r inc f e g c w = ground (arith, e, g, c, w)
