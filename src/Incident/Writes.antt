-- ===== src/Incident/Writes.antt =====
-- incident.go: what an Update writes as the status of its incident, and what it has deleted before
-- it creates a pod.
use incident_controller.Prelude.{List, [], ◌∷◌, ◌≡◌, arith, All, In, if◌then◌else◌}
use incident_controller.Api.Incident.{Incident}
use incident_controller.Api.Pod.{Pod}
use incident_controller.Platform.{Platform}
use incident_controller.Calls.{bind-All, In-All}
use incident_controller.Server.{Server, Call, emit, update_status, delete_pod, pure}
use incident_controller.Machine.Checks.{current_script}
use incident_controller.Machine.Transitions.{Change}
use incident_controller.CheckPod.Sandbox.{CheckPods}
use incident_controller.Incident.Plan.{Plan}
use incident_controller.Incident.Update.{
  announce_all, delete_pods, persist, reset_applied, start_check, update, create_or_read,
}

-- A call that writes a status writes this incident's.
abbrev pub WritesTo : Incident → Call → Type 0
WritesTo inc (update_status new) = new ≡ inc
WritesTo inc _ = Unit {0}

module _ (inc : Incident) where
  pub announce_all-WritesTo :
      (cs : List Change) (h : List Call)
      → All (WritesTo inc) h
      → All (WritesTo inc) (announce_all cs h).1
  unfolding announce_all
  announce_all-WritesTo [] h a = a
  announce_all-WritesTo (c ∷ cs) h a =
      announce_all-WritesTo cs (emit c.reason c.message ∷ h) (tt, a)

module _ ⦃srv : Server⦄ (inc : Incident) where
  delete_pods-WritesTo :
      (pods : List Pod) (h : List Call)
      → All (WritesTo inc) h
      → All (WritesTo inc) (delete_pods pods h).1
  unfolding delete_pods
  delete_pods-WritesTo [] h a = a
  delete_pods-WritesTo (pod ∷ pods) h a =
      ground (arith, delete_pods-WritesTo pods (delete_pod pod ∷ h))

  persist-WritesTo : (plan : Plan) → All (WritesTo inc) (persist plan inc []).1
  unfolding persist
  persist-WritesTo plan =
      ground (arith, announce_all-WritesTo inc plan.changes (update_status inc ∷ []))

  reset_applied-WritesTo :
      (plan : Plan) (old : Incident) (h : List Call)
      → All (WritesTo inc) h
      → All (WritesTo inc) (reset_applied plan old h).1
  unfolding reset_applied
  reset_applied-WritesTo plan old h a = ground arith

module _ ⦃p : Platform⦄ ⦃srv : Server⦄ (inc : Incident) where
  last_step-WritesTo :
      (pods : CheckPods) (plan : Plan) (old : Incident) (h : List Call)
      → All (WritesTo inc) h
      → All
          (WritesTo inc)
          ((if plan.due then start_check pods old (current_script old) plan.from else pure tt) h).1
  unfolding start_check create_or_read
  last_step-WritesTo pods plan old h a = ground arith

  update-All : (pods : CheckPods) (plan : Plan) → All (WritesTo inc) (update pods plan inc []).1
  unfolding update
  update-All pods plan =
      bind-All (WritesTo inc) (persist plan inc []) _ (persist-WritesTo inc plan) λ i h a.
        bind-All (WritesTo inc) (reset_applied plan i h) _ (reset_applied-WritesTo inc plan i h a)
          λ j h' a'.
            bind-All (WritesTo inc) (delete_pods plan.stale h') _
              (delete_pods-WritesTo inc plan.stale h' a')
              λ _ h'' a''. last_step-WritesTo pods plan j h'' a''

  -- An Update writes the status of the incident as Observe left it in memory.
  pub update-status :
      (pods : CheckPods) (plan : Plan) (new : Incident)
      → In (update_status new) (update pods plan inc []).1
      → new ≡ inc
  update-status pods plan new i =
      In-All (WritesTo inc) (update_status new) (update pods plan inc []).1 i (update-All pods plan)
