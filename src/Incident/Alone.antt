-- ===== src/Incident/Alone.antt =====
-- incident.go: a check pod is created only when no other check pod of the incident is left.
use incident_controller.Prelude.{
  refl, subst, true, false, List, [], ◌∷◌, ◌≡◌, ◌⊎◌, arith, All, In, inl, inr, if◌then◌else◌, none,
  some, Bool,
}
use incident_controller.Api.Meta.{Time, was_deleted}
use incident_controller.Api.Incident.{Incident}
use incident_controller.Api.Pod.{Pod}
use incident_controller.Platform.{Platform}
use incident_controller.Calls.{In-All, bind-In, continue_with-eq-ok}
use incident_controller.Server.{
  Server, Call, ok, create_pod, emit, update_status, delete_pod, pure, not_found, issue,
  ignore_not_found, pod_not_deleted,
}
use incident_controller.Machine.Output.{Config}
use incident_controller.Machine.Checks.{current_script}
use incident_controller.Machine.Transitions.{Change}
use incident_controller.CheckPod.Sandbox.{CheckPods, check_pod}
use incident_controller.Incident.Plan.{Plan}
use incident_controller.Incident.LastRuns.{LastRuns}
use incident_controller.Incident.Observe.{observe_live}
use incident_controller.Incident.Pods.{observe_live-due}
use incident_controller.Incident.Update.{
  announce_all, delete_pods, persist, reset_applied, start_check, update, create_or_read,
}

abbrev is_create : Call → Bool
is_create (create_pod _) = true
is_create _ = false

-- A call creates no pod.
abbrev CreatesNone : Call → Type 0
CreatesNone c = is_create c ≡ false

announce_all-creates :
    (cs : List Change) (h : List Call) → All CreatesNone h → All CreatesNone (announce_all cs h).1
unfolding announce_all
announce_all-creates [] h a = a
announce_all-creates (c ∷ cs) h a = announce_all-creates cs (emit c.reason c.message ∷ h) (refl, a)

module _ ⦃srv : Server⦄ where
  -- The delete of the pod was asked for, and the server answered that it is deleted or not there.
  abbrev pub Gone : Pod → Type 0
  Gone pod =
      (h : List Call) × ((srv.write h (delete_pod pod) ≡ none)
        ⊎ (srv.write h (delete_pod pod) ≡ some not_found))

  delete_pods-creates :
      (pods : List Pod) (h : List Call) → All CreatesNone h → All CreatesNone (delete_pods pods h).1
  unfolding delete_pods
  delete_pods-creates [] h a = a
  delete_pods-creates (pod ∷ pods) h a =
      ground (arith, delete_pods-creates pods (delete_pod pod ∷ h))

  issue-Gone :
      (pod : Pod) (h h' : List Call)
      → issue (delete_pod pod) (ignore_not_found (pod_not_deleted pod.meta.name)) h ≡ (ok tt, h')
      → Gone pod
  issue-Gone pod h h' e = (h, ground arith)

  pub delete_pods-Gone :
      (pods : List Pod) (h h' : List Call)
      → delete_pods pods h ≡ (ok tt, h')
      → (pod : Pod) → In pod pods
      → Gone pod
  unfolding delete_pods
  delete_pods-Gone [] h h' e pod i = absurd i
  delete_pods-Gone (q ∷ pods) h h' e pod i =
      let (_, h₁, first, rest) =
        continue_with-eq-ok
          (issue (delete_pod q) (ignore_not_found (pod_not_deleted q.meta.name)) h)
          (λ _. delete_pods pods) tt h' e in
      elim i [
        | inl same ↦ rw same (issue-Gone q h h₁ first)
        | inr there ↦ delete_pods-Gone pods h₁ h' rest pod there
      ]

  persist-creates : (plan : Plan) (inc : Incident) → All CreatesNone (persist plan inc []).1
  unfolding persist
  persist-creates plan inc =
      ground (arith, announce_all-creates plan.changes (update_status inc ∷ []))

  reset_applied-creates :
      (plan : Plan) (inc : Incident) (h : List Call)
      → All CreatesNone h
      → All CreatesNone (reset_applied plan inc h).1
  unfolding reset_applied
  reset_applied-creates plan inc h a = ground arith

no_create : (pod : Pod) (h : List Call) → All CreatesNone h → ¬ In (create_pod pod) h
no_create pod h a i = cc (In-All CreatesNone (create_pod pod) h i a)

module _ ⦃p : Platform⦄ ⦃srv : Server⦄ where
  last_step-create :
      (pods : CheckPods) (plan : Plan) (inc : Incident) (h : List Call) (pod : Pod)
      → All CreatesNone h
      → In
          (create_pod pod)
          ((if plan.due then start_check pods inc (current_script inc) plan.from else pure tt) h).1
      → (plan.due ≡ true) × (pod ≡ check_pod pods inc (current_script inc) plan.from)
  unfolding start_check create_or_read
  last_step-create pods plan inc h pod a i = ground (arith, no_create pod h a)

  -- The incident once the status and the spec are written, as the server keeps it.
  abbrev pub Stored : Plan → Incident → Incident → Type 0
  Stored plan inc k =
      (j : Incident) × (h h' : List Call) × (persist plan inc [] ≡ (ok j, h))
      × (reset_applied plan j h ≡ (ok k, h'))

  -- An Update that asks for a pod has a check that is due, and the deletes of its plan are done.
  pub update-create :
      (pods : CheckPods) (plan : Plan) (inc : Incident) (pod : Pod)
      → In (create_pod pod) (update pods plan inc []).1
      → (plan.due ≡ true)
        × ((i : Incident) × Stored plan inc i
            × (pod ≡ check_pod pods i (current_script i) plan.from))
        × ((q : Pod) → In q plan.stale → Gone q)
  unfolding update
  update-create pods plan inc pod i = elim (bind-In (create_pod pod) (persist plan inc []) _ i) [
    | inl early ↦ absurd (no_create pod _ (persist-creates plan inc) early)
    | inr (j, h, e, i₁) ↦
        let a : All CreatesNone h = subst (λ r. All CreatesNone r.1) e (persist-creates plan inc) in
        elim (bind-In (create_pod pod) (reset_applied plan j h) _ i₁) [
          | inl early ↦ absurd (no_create pod _ (reset_applied-creates plan j h a) early)
          | inr (k, h₁, e₁, i₂) ↦
              let a₁ : All CreatesNone h₁ =
                subst (λ r. All CreatesNone r.1) e₁ (reset_applied-creates plan j h a) in
              elim (bind-In (create_pod pod) (delete_pods plan.stale h₁) _ i₂) [
                | inl early ↦ absurd (no_create pod _ (delete_pods-creates plan.stale h₁ a₁) early)
                | inr (_, h₂, e₂, i₃) ↦
                    let a₂ : All CreatesNone h₂ =
                      subst (λ r. All CreatesNone r.1) e₂ (delete_pods-creates plan.stale h₁ a₁) in
                    let (due, made) = last_step-create pods plan k h₂ pod a₂ i₃ in
                    (due, (k, (j, h, h₁, e, e₁), made), delete_pods-Gone plan.stale h₁ h₂ e₂)
              ]
        ]
  ]

  -- One reconcile creates a check pod only if every check pod that it listed was being deleted, or
  -- was deleted first: the server answered its delete with no error, or that it is not there.
  pub reconcile_alone :
      (cfg : Config) (now : Time) (inc : Incident) (runs : LastRuns) (listed : List Pod)
      (pods : CheckPods) (pod q : Pod)
      → let o = observe_live cfg now inc runs listed in
        In (create_pod pod) (update pods o.plan o.inc []).1
        → In q listed
        → (was_deleted q.meta ≡ true) ⊎ Gone q
  reconcile_alone cfg now inc runs listed pods pod q i l =
      let o = observe_live cfg now inc runs listed in
      let (due, made, gone) = update-create pods o.plan o.inc pod i in
      elim (observe_live-due cfg now inc runs listed q due l) [
        | inl d ↦ inl d
        | inr s ↦ inr (gone q s)
      ]
