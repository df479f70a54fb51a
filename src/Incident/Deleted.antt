-- ===== src/Incident/Deleted.antt =====
-- incident.go: an incident that is being deleted, and what Observe returns.
use incident_controller.Prelude.{
  length, ◌≤◌, true, ◌↔◌, refl, All, Bool-cases, ◌⊎◌, inl, inr, ◌≡◌, arith, false, not, ◌&&◌, none,
  some, Text, List, [], ◌∷◌, In,
}
use incident_controller.Api.Meta.{Time, was_deleted}
use incident_controller.Api.Incident.{Incident}
use incident_controller.Api.Pod.{Pod, ConfigMap}
use incident_controller.Platform.{Platform}
use incident_controller.Calls.{continue_with-eq-ok}
use incident_controller.Server.{
  Server, Fetched-cases, Call, Fault, Fetched, found, fault, Outcome, ok, err, delete_config_map,
  not_found, issue, ignore_not_found, config_map_not_deleted, pods_not_listed,
  config_maps_not_listed,
}
use incident_controller.Machine.Output.{Config}
use incident_controller.CheckPod.Names.{selector}
use incident_controller.Incident.LastRuns.{LastRuns}
use incident_controller.Incident.Plan.{new_plan}
use incident_controller.Incident.Observe.{
  conclude, observation, observe_deleted, observe, observe_live, is_nil, list_objects, out_of_date,
  Reconcile, Observation,
}
use incident_controller.Incident.Update.{update, delete, delete_pods, delete_config_maps}
use incident_controller.Incident.Alone.{Gone, delete_pods-Gone}
use incident_controller.CheckPod.Sandbox.{CheckPods}
use incident_controller.Incident.UpToDate.{update-nothing, update-calls}

All-In : {A : Type 0} (P : A → Type 0) (xs : List A) → ((x : A) → In x xs → P x) → All P xs
All-In P [] h = tt
All-In P (x ∷ xs) h = (h x (inl refl), All-In P xs (λ y i. h y (inr i)))

module _ ⦃srv : Server⦄ where
  -- The same of a ConfigMap.
  abbrev pub GoneMap : ConfigMap → Type 0
  GoneMap cm =
      (h : List Call) × ((srv.write h (delete_config_map cm) ≡ none)
        ⊎ (srv.write h (delete_config_map cm) ≡ some not_found))

  issue-GoneMap :
      (cm : ConfigMap) (h h' : List Call)
      → issue (delete_config_map cm) (ignore_not_found (config_map_not_deleted cm.meta.name)) h
        ≡ (ok tt, h')
      → GoneMap cm
  issue-GoneMap cm h h' e = (h, ground arith)

  delete_config_maps-GoneMap :
      (cms : List ConfigMap) (h h' : List Call)
      → delete_config_maps cms h ≡ (ok tt, h')
      → (cm : ConfigMap) → In cm cms
      → GoneMap cm
  unfolding delete_config_maps
  delete_config_maps-GoneMap [] h h' e cm i = absurd i
  delete_config_maps-GoneMap (q ∷ cms) h h' e cm i =
      let (_, h₁, first, rest) =
        continue_with-eq-ok
          (issue (delete_config_map q) (ignore_not_found (config_map_not_deleted q.meta.name)) h)
          (λ _. delete_config_maps cms) tt h' e in
      elim i [
        | inl same ↦ rw same (issue-GoneMap q h h₁ first)
        | inr there ↦ delete_config_maps-GoneMap cms h₁ h' rest cm there
      ]

module _ ⦃p : Platform⦄ ⦃srv : Server⦄ where
  -- A list of the check objects that succeeds is both lists.
  list_objects-eq-ok :
      (namespace : Text) (inc : Incident) (h h' : List Call) (pods : List Pod)
      (cms : List ConfigMap)
      → list_objects namespace inc h ≡ (ok (pods, cms), h')
      → (srv.list_pods h namespace (selector inc) ≡ found pods)
        × (srv.list_config_maps h namespace (selector inc) ≡ found cms)
        × (h' ≡ h)
  unfolding list_objects
  list_objects-eq-ok namespace inc h h' pods cms e = ground arith

  -- A Delete that reports no error has listed the check pods and the ConfigMaps of the incident, and
  -- each of them is deleted, or the server answered that it is not there.
  pub delete-Gone :
      (namespace : Text) (inc : Incident) (h : List Call)
      → delete namespace inc [] ≡ (ok tt, h)
      → (pods : List Pod) × (cms : List ConfigMap) × (srv.list_pods [] namespace (selector inc)
          ≡ found pods)
        × (srv.list_config_maps [] namespace (selector inc) ≡ found cms)
        × All Gone pods
        × All GoneMap cms
  unfolding delete
  delete-Gone namespace inc h e =
      let ((pods, cms), h₁, listed, rest) =
        continue_with-eq-ok (list_objects namespace inc []) _ tt h e in
      let (_, h₂, deleted, last) =
        continue_with-eq-ok (delete_pods pods h₁) (λ _. delete_config_maps cms) tt h rest in
      let (p, c, same) = list_objects-eq-ok namespace inc [] h₁ pods cms listed in
      (
        pods,
        cms,
        p,
        c,
        All-In Gone pods (delete_pods-Gone pods h₁ h₂ deleted),
        All-In GoneMap cms (delete_config_maps-GoneMap cms h₂ h last),
      )

module _ ⦃p : Platform⦄ ⦃srv : Server⦄ (cfg : Config) (namespace : Text) (now : Time)
    (inc : Incident) (runs : LastRuns) (h : List Call) (checks : CheckPods) where
  -- A deleted incident exists as long as it has check objects, and is never up to date.
  abbrev pub LeavesNone : List Pod → List ConfigMap → Observation → Type 0
  LeavesNone pods cms o =
      (o.resource_up_to_date ≡ false) × ((o.resource_exists ≡ false) ↔ ((pods ≡ []) × (cms ≡ [])))

  -- Any other exists, and is up to date exactly when Update would call nothing.
  abbrev pub Stands : Reconcile → Observation → Type 0
  Stands s o =
      let r = update checks s.plan s.inc [] in
      (o.resource_exists ≡ true)
      × (((o.resource_up_to_date ≡ true) × (r ≡ (ok tt, [])))
          ⊎ ((o.resource_up_to_date ≡ false) × (1 ≤ length r.1)))

  -- An answer of Observe, by what the two lists are.
  abbrev pub Answers :
      Fetched (List Pod) → Fetched (List ConfigMap) → Outcome (Reconcile × Observation) → Type 0
  Answers (fault f) maps a = a ≡ err (pods_not_listed f)
  Answers (found pods) (fault f) a = a ≡ err (config_maps_not_listed f)
  Answers (found pods) (found cms) a =
      (s : Reconcile) × (o : Observation) × (a ≡ ok (s, o))
      × (((was_deleted inc.meta ≡ true) × LeavesNone pods cms o)
          ⊎ ((was_deleted inc.meta ≡ false)
              × (s ≡ observe_live cfg now inc runs pods)
              × Stands s o))

  consumed_dirty :
      (pods : List Pod)
      → let plan = (observe_live cfg now inc runs pods).plan in
        plan.dirty ≡ false → plan.consume_applied ≡ false
  unfolding observe_live conclude
  consumed_dirty pods d = ground arith

  observation-Stands :
      (pods : List Pod)
      → let s = observe_live cfg now inc runs pods in Stands s (observation s.plan)
  unfolding observation
  observation-Stands pods =
      let s = observe_live cfg now inc runs pods in
      elim (Bool-cases (out_of_date s.plan)) [
        | inl o ↦ (
          ground arith,
          inr (ground arith, update-calls checks s.plan s.inc o (consumed_dirty pods)),
        )
        | inr o ↦ (
          ground arith,
          inl (ground arith, update-nothing checks s.plan s.inc o (consumed_dirty pods)),
        )
      ]

  deleted-LeavesNone :
      (pods : List Pod) (cms : List ConfigMap)
      → LeavesNone pods cms
          (observe_deleted inc runs (new_plan [] false) (not (is_nil pods && is_nil cms))).1
  unfolding observe_deleted
  deleted-LeavesNone [] [] = (refl, (λ e. (refl, refl), λ e. refl))
  deleted-LeavesNone [] (cm ∷ cms) = (refl, (λ e. cc, λ (e, f). cc))
  deleted-LeavesNone (pod ∷ pods) cms = (refl, (λ e. cc, λ (e, f). cc))

  observe-found :
      (pods : List Pod) (cms : List ConfigMap)
      → srv.list_pods h namespace (selector inc) ≡ found pods
      → srv.list_config_maps h namespace (selector inc) ≡ found cms
      → Answers (found pods) (found cms) (observe cfg namespace now inc runs h).0
  unfolding observe list_objects
  observe-found pods cms lp lm = elim (Bool-cases (was_deleted inc.meta)) [
    | inl d ↦
        let gone = observe_deleted inc runs (new_plan [] false) (not (is_nil pods && is_nil cms)) in
        (gone.0, gone.1, ground arith, inl (d, deleted-LeavesNone pods cms))
    | inr d ↦
        let s = observe_live cfg now inc runs pods in
        (s, observation s.plan, ground arith, inr (d, refl, observation-Stands pods))
  ]

  observe_calls : (observe cfg namespace now inc runs h).1 ≡ h
  unfolding observe list_objects
  observe_calls = ground arith

  observe-no_pods :
      (f : Fault)
      → srv.list_pods h namespace (selector inc) ≡ fault f
      → (observe cfg namespace now inc runs h).0 ≡ err (pods_not_listed f)
  unfolding observe list_objects
  observe-no_pods f e = ground arith

  observe-no_maps :
      (pods : List Pod) (f : Fault)
      → srv.list_pods h namespace (selector inc) ≡ found pods
      → srv.list_config_maps h namespace (selector inc) ≡ fault f
      → (observe cfg namespace now inc runs h).0 ≡ err (config_maps_not_listed f)
  unfolding observe list_objects
  observe-no_maps pods f e e' = ground arith

  -- Observe makes no call that changes anything, on any path; a list that fails is its error, that
  -- of the pods before that of the ConfigMaps. A deleted incident is answered to be gone exactly when
  -- it has no check pods and no ConfigMaps, and else to be out of date. Any other is answered to
  -- exist, and to be up to date exactly when an Update of the plan would make no call.
  pub observe-Answers :
      ((observe cfg namespace now inc runs h).1 ≡ h)
      × Answers
          (srv.list_pods h namespace (selector inc))
          (srv.list_config_maps h namespace (selector inc))
          (observe cfg namespace now inc runs h).0
  observe-Answers = (
    observe_calls,
    elim (Fetched-cases (srv.list_pods h namespace (selector inc))) [
      | inr (f, e) ↦ rw e (observe-no_pods f e)
      | inl (pods, e) ↦ elim (Fetched-cases (srv.list_config_maps h namespace (selector inc))) [
        | inr (f, e') ↦ rw (e, e') (observe-no_maps pods f e e')
        | inl (cms, e') ↦ rw (e, e') (observe-found pods cms e e')
      ]
    ],
  )
