-- ===== src/Incident/Order.antt =====
-- incident.go: the order in which Update makes its calls, and that it makes all of them.
use incident_controller.Prelude.{if◌then◌else◌, ℕ, true, List, [], ◌∷◌, ◌≡◌, arith}
use incident_controller.Api.Meta.{Time}
use incident_controller.Api.Incident.{Incident, Script}
use incident_controller.Api.Pod.{Pod}
use incident_controller.Platform.{Platform}
use incident_controller.Calls
use incident_controller.Server.{
  pure, Server, Call, Fault, err, update_status, update_incident, delete_pod, delete_config_map,
  create_pod, create_config_map, emit, status_not_persisted, fault,
}
use incident_controller.Machine.Transitions.{Change}
use incident_controller.Machine.Checks.{current_script}
use incident_controller.CheckPod.Sandbox.{CheckPods}
use incident_controller.Incident.Plan.{Plan}
use incident_controller.Incident.Update.{
  create_or_read, update, persist, reset_applied, delete_pods, start_check, announce_all,
}

-- The place of a call in an Update; an Update of an Incident makes no other call.
abbrev pub place : Call → ℕ
place (update_status _) = 0
place (emit _ _) = 1
place (update_incident _) = 2
place (delete_pod _) = 3
place (delete_config_map _) = 3
place (create_pod _) = 4
place (create_config_map _) = 5
place _ = 6

abbrev pub InOrder : ℕ → List Call → Type 0
InOrder = Calls.InOrder place

announce_all-InOrder :
    (cs : List Change) (h : List Call) → InOrder 1 h → InOrder 1 (announce_all cs h).1
unfolding announce_all
announce_all-InOrder [] h o = o
announce_all-InOrder (c ∷ cs) h o =
    announce_all-InOrder cs (emit c.reason c.message ∷ h) (omega arith, o)

module _ ⦃srv : Server⦄ where
  delete_pods-InOrder :
      (pods : List Pod) (h : List Call) → InOrder 3 h → InOrder 3 (delete_pods pods h).1
  unfolding delete_pods
  delete_pods-InOrder [] h o = o
  delete_pods-InOrder (pod ∷ pods) h o =
      ground (arith, delete_pods-InOrder pods (delete_pod pod ∷ h))

  persist-InOrder : (plan : Plan) (inc : Incident) → InOrder 1 (persist plan inc []).1
  unfolding persist
  persist-InOrder plan inc =
      ground (arith, announce_all-InOrder plan.changes (update_status inc ∷ []))

  reset_applied-InOrder :
      (plan : Plan) (inc : Incident) (h : List Call)
      → InOrder 1 h
      → InOrder 2 (reset_applied plan inc h).1
  unfolding reset_applied
  reset_applied-InOrder plan inc h o = ground (arith, Calls.InOrder-mono place 1 2 h)

module _ ⦃p : Platform⦄ ⦃srv : Server⦄ where
  start_check-InOrder :
      (pods : CheckPods) (inc : Incident) (s : Script) (from : Time) (h : List Call)
      → InOrder 3 h
      → InOrder 5 (start_check pods inc s from h).1
  unfolding start_check create_or_read
  start_check-InOrder pods inc s from h o =
      ground (arith, Calls.InOrder-mono place 3 5 h, Calls.InOrder-mono place 3 4 h)

  last_step-InOrder :
      (pods : CheckPods) (plan : Plan) (inc : Incident) (h : List Call)
      → InOrder 3 h
      → InOrder 5
          ((if plan.due then start_check pods inc (current_script inc) plan.from else pure tt) h).1
  last_step-InOrder pods plan inc h o = ground (
    arith,
    start_check-InOrder pods inc (current_script inc) plan.from h,
    Calls.InOrder-mono place 3 5 h,
  )

  -- One Update makes its calls in order, on every path: the status, its events, the spec, the
  -- deletes, the pod and its ConfigMap.
  pub update-InOrder :
      (pods : CheckPods) (plan : Plan) (inc : Incident) → InOrder 5 (update pods plan inc []).1
  unfolding update
  update-InOrder pods plan inc =
      Calls.bind-InOrder place 1 5 (persist plan inc []) _ (omega arith) (persist-InOrder plan inc)
        λ persisted h o.
          Calls.bind-InOrder place 2 5 (reset_applied plan persisted h) _ (omega arith)
            (reset_applied-InOrder plan persisted h o)
            λ reset h' o'.
              Calls.bind-InOrder place 3 5 (delete_pods plan.stale h') _ (omega arith)
                (delete_pods-InOrder plan.stale h'
                  (Calls.InOrder-mono place 2 3 h' (omega arith) o'))
                λ _ h'' o''. last_step-InOrder pods plan reset h'' o''

  -- A status that cannot be persisted ends an Update before any other call.
  pub update-status_first :
      (pods : CheckPods) (plan : Plan) (inc : Incident) (h : List Call) (f : Fault)
      → plan.dirty ≡ true
      → srv.write_status h inc ≡ fault f
      → update pods plan inc h ≡ (err (status_not_persisted f), update_status inc ∷ h)
  unfolding update persist
  update-status_first pods plan inc h f d e = ground arith
