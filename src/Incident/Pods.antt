-- ===== src/Incident/Pods.antt =====
-- incident.go: what Observe makes of each check pod.
use incident_controller.Prelude.{
  ◌↔◌, In-append, In-append_left, In-append_right, Bool, true, false, none, some, List, [], ◌∷◌,
  ◌≡◌, ◌⊎◌, inl, inr, arith, In,
}
use incident_controller.Api.Meta.{Time, was_deleted}
use incident_controller.Api.Incident.{Incident}
use incident_controller.Api.Pod.{Pod}
use incident_controller.Platform.{Platform}
use incident_controller.Machine.Output.{Config}
use incident_controller.CheckPod.ResultOf.{result_of}
use incident_controller.Incident.Observe.{
  sort_onto, insert_pod, Reconcile, observe_pod, observe_pods, begin, conclude, observe_live,
  sort_pods,
}
use incident_controller.Incident.LastRuns.{LastRuns}

module _ ⦃p : Platform⦄ (cfg : Config) (now : Time) where
  abbrev is_done : Pod → Bool
  is_done pod = (result_of pod cfg.check_timeout now).1

  -- What the plan says of a pod.
  abbrev pub Accounted : Reconcile → Pod → Type 0
  Accounted s pod =
      (was_deleted pod.meta ≡ true)
      ⊎ In pod s.plan.stale
      ⊎ ((is_done pod ≡ false) × (s.plan.live ≡ some pod))

  observe_pod-Accounted : (s : Reconcile) (pod : Pod) → Accounted (observe_pod cfg now s pod) pod
  unfolding observe_pod
  observe_pod-Accounted s pod = ground (arith, In-append_right pod s.plan.stale (pod ∷ []))

  observe_pod-keeps :
      (s : Reconcile) (pod q : Pod) → Accounted s q → Accounted (observe_pod cfg now s pod) q
  unfolding observe_pod
  observe_pod-keeps s pod q h = ground (arith, In-append_left q s.plan.stale (pod ∷ []))

  observe_pod-stale :
      (s : Reconcile) (pod q : Pod)
      → In q (observe_pod cfg now s pod).plan.stale
      → In q s.plan.stale ⊎ ((q ≡ pod) × (was_deleted pod.meta ≡ false))
  unfolding observe_pod
  observe_pod-stale s pod q h = ground (arith, In-append q s.plan.stale (pod ∷ []))

  observe_pods-keeps :
      (s : Reconcile) (pods : List Pod) (q : Pod)
      → Accounted s q
      → Accounted (observe_pods cfg now s pods) q
  unfolding observe_pods
  observe_pods-keeps s [] q h = h
  observe_pods-keeps s (pod ∷ pods) q h =
      observe_pods-keeps (observe_pod cfg now s pod) pods q (observe_pod-keeps s pod q h)

  observe_pods-Accounted :
      (s : Reconcile) (pods : List Pod) (q : Pod)
      → In q pods
      → Accounted (observe_pods cfg now s pods) q
  unfolding observe_pods
  observe_pods-Accounted s [] q h = absurd h
  observe_pods-Accounted s (pod ∷ pods) q (inl e) =
      observe_pods-keeps (observe_pod cfg now s pod) pods q (rw e (observe_pod-Accounted s pod))
  observe_pods-Accounted s (pod ∷ pods) q (inr h) =
      observe_pods-Accounted (observe_pod cfg now s pod) pods q h

  observe_pods-stale :
      (s : Reconcile) (pods : List Pod) (q : Pod)
      → In q (observe_pods cfg now s pods).plan.stale
      → In q s.plan.stale ⊎ (In q pods × (was_deleted q.meta ≡ false))
  unfolding observe_pods
  observe_pods-stale s [] q h = inl h
  observe_pods-stale s (pod ∷ pods) q h =
      elim (observe_pods-stale (observe_pod cfg now s pod) pods q h) [
        | inr (there, alive) ↦ inr (inr there, alive)
        | inl before ↦ elim (observe_pod-stale s pod q before) [
          | inl old ↦ inl old
          | inr (same, alive) ↦ inr (inl same, rw same alive)
        ]
      ]

-- Sorting loses no pod and adds none.
insert_pod-In : (x y : Pod) (pods : List Pod) → In x (insert_pod y pods) ↔ ((x ≡ y) ⊎ In x pods)
unfolding insert_pod
insert_pod-In x y [] = (λ h. h, λ h. h)
insert_pod-In x y (z ∷ pods) = ground (arith, insert_pod-In x y pods)

sort_onto-In :
    (x : Pod) (done pods : List Pod) → In x (sort_onto done pods) ↔ (In x done ⊎ In x pods)
unfolding sort_onto
sort_onto-In x done [] = (inl, λ h. elim h [ inl a ↦ a | inr b ↦ absurd b ])
sort_onto-In x done (y ∷ pods) =
    ground (arith, sort_onto-In x (insert_pod y done) pods, insert_pod-In x y done)

pub sort_pods-In : (x : Pod) (pods : List Pod) → In x (sort_pods pods) ↔ In x pods
unfolding sort_pods
sort_pods-In x pods = ground (arith, sort_onto-In x [] pods)

module _ ⦃p : Platform⦄ where
  -- Observe accounts for every check pod that it lists: one that is not being deleted is to be
  -- deleted, or is the live pod, whose run is not done.
  pub observe_live-Accounted :
      (cfg : Config) (now : Time) (inc : Incident) (runs : LastRuns) (pods : List Pod) (pod : Pod)
      → In pod pods
      → Accounted cfg now (observe_live cfg now inc runs pods) pod
  unfolding observe_live
  observe_live-Accounted cfg now inc runs pods pod h =
      observe_pods-Accounted cfg now (begin inc runs now) (sort_pods pods) pod
        ((sort_pods-In pod pods).1 h)

  -- A check pod is to be deleted only if it was listed and is not being deleted.
  pub observe_live-stale :
      (cfg : Config) (now : Time) (inc : Incident) (runs : LastRuns) (pods : List Pod) (pod : Pod)
      → In pod (observe_live cfg now inc runs pods).plan.stale
      → In pod pods × (was_deleted pod.meta ≡ false)
  unfolding observe_live
  observe_live-stale cfg now inc runs pods pod h =
      elim (observe_pods-stale cfg now (begin inc runs now) (sort_pods pods) pod h) [
        | inl none_before ↦ absurd none_before
        | inr (there, alive) ↦ ((sort_pods-In pod pods).0 there, alive)
      ]

  due-no_live :
      (cfg : Config) (now : Time) (inc : Incident) (runs : LastRuns) (pods : List Pod)
      → let plan = (observe_live cfg now inc runs pods).plan in plan.due ≡ true → plan.live ≡ none
  unfolding conclude observe_live
  due-no_live cfg now inc runs pods h = ground arith

  -- A check is due only when every listed pod is being deleted or is to be deleted: no two pods
  -- of an incident are left to run at once.
  pub observe_live-due :
      (cfg : Config) (now : Time) (inc : Incident) (runs : LastRuns) (pods : List Pod) (pod : Pod)
      → (observe_live cfg now inc runs pods).plan.due ≡ true
      → In pod pods
      → (was_deleted pod.meta ≡ true) ⊎ In pod (observe_live cfg now inc runs pods).plan.stale
  observe_live-due cfg now inc runs pods pod due h = ground (
    arith,
    due-no_live cfg now inc runs pods due,
    observe_live-Accounted cfg now inc runs pods pod h,
  )
