-- ===== src/Life/Verdicts.antt =====
-- machine.go and incident.go: by which run or decision an Observe changes the state.
use incident_controller.Prelude.{ℕ, refl, ◌≡◌, ◌⊎◌, inl, inr, arith, true, List, [], ◌∷◌, In}
use incident_controller.Api.Meta.{Time, Duration}
use incident_controller.Api.Incident.{Incident, IncidentSpec, State, Script}
use incident_controller.Api.Pod.{Pod}
use incident_controller.Platform.{Platform}
use incident_controller.Machine.Output.{Config, Result}
use incident_controller.Machine.Checks.{current_script}
use incident_controller.Machine.Transitions.{apply_spec}
use incident_controller.Machine.Verdicts.{record_result, exit_is}
use incident_controller.CheckPod.ResultOf.{result_of}
use incident_controller.Incident.LastRuns.{LastRuns}
use incident_controller.Incident.Observe.{
  Reconcile, observe_pod, observe_pods, begin, observe_live, sort_pods,
}
use incident_controller.Incident.Pods.{sort_pods-In}
use incident_controller.Incident.Safety.{script_eq_sound}

module _ ⦃p : Platform⦄ (timeout : Duration) where
  -- At some time the pod is done, and carried a run of the script that exited with the code.
  abbrev pub Exited : Script → ℕ → Pod → Type 0
  Exited script code pod =
      (now : Time) × (let (r, done) = result_of pod timeout now in
        (done ≡ true) × (r.script ≡ script) × (exit_is r.exit code ≡ true))

  -- Some pod of the list carried such a run.
  abbrev pub SomeExited : Script → ℕ → List Pod → Type 0
  SomeExited script code pods = (pod : Pod) × In pod pods × Exited script code pod

module _ ⦃p : Platform⦄ (cfg : Config) where
  -- What a run of the current script makes of the state.
  record_result-cases :
      (inc : Incident) (r : Result) (now : Time)
      → r.script ≡ current_script inc
      → let after = (record_result inc cfg r now).0.status.state in
        (after ≡ inc.status.state)
        ⊎ ((after ≡ State.open_state) × (r.script ≡ Script.verify) × (exit_is r.exit 1 ≡ true))
        ⊎ ((after ≡ State.verifying) × (r.script ≡ Script.precondition) × (exit_is r.exit 0 ≡ true))
        ⊎ ((after ≡ State.resolved) × (r.script ≡ Script.verify) × (exit_is r.exit 0 ≡ true))
  unfolding record_result current_script
  record_result-cases inc r now h = ground arith

  -- Why one Observe leaves a state that it did not find: Open, after a verify that exited 1;
  -- Verifying, as spec.applied asks, or after a precondition that exited 0; Resolved, after a verify
  -- that exited 0; Closed, as spec.closed asks. It leaves no other.
  abbrev pub Reason : IncidentSpec → List Pod → State → Type 0
  Reason spec pods State.unset = ⊥
  Reason spec pods State.analyzing = ⊥
  Reason spec pods State.open_state = SomeExited cfg.check_timeout Script.verify 1 pods
  Reason spec pods State.verifying =
      (spec.applied ≡ true) ⊎ SomeExited cfg.check_timeout Script.precondition 0 pods
  Reason spec pods State.resolved = SomeExited cfg.check_timeout Script.verify 0 pods
  Reason spec pods State.closed = spec.closed ≡ true

  abbrev Moves : State → IncidentSpec → List Pod → State → Type 0
  Moves before spec pods after = (after ≡ before) ⊎ Reason spec pods after

  apply_spec-Moves :
      (inc : Incident) (now : Time) (pods : List Pod)
      → Moves inc.status.state inc.spec pods (apply_spec inc now).0.status.state
  unfolding apply_spec
  apply_spec-Moves inc now pods = ground arith

  observe_pod-cases :
      (now : Time) (s : Reconcile) (pod : Pod)
      → let (r, done) = result_of pod cfg.check_timeout now in
        ((observe_pod cfg now s pod).inc ≡ s.inc)
        ⊎ ((done ≡ true)
            × (r.script ≡ current_script s.inc)
            × ((observe_pod cfg now s pod).inc ≡ (record_result s.inc cfg r now).0))
  unfolding observe_pod
  observe_pod-cases now s pod =
      let r = (result_of pod cfg.check_timeout now).0 in
      ground (arith, script_eq_sound r.script (current_script s.inc))

  observe_pod-Moves :
      (now : Time) (s : Reconcile) (pod : Pod) (before : State) (spec : IncidentSpec)
      (pods : List Pod)
      → In pod pods
      → Moves before spec pods s.inc.status.state
      → Moves before spec pods (observe_pod cfg now s pod).inc.status.state
  observe_pod-Moves now s pod before spec pods i m = elim (observe_pod-cases now s pod) [
    | inl e ↦ rw e m
    | inr (done, current, e) ↦
        let r = (result_of pod cfg.check_timeout now).0 in
        rw e (elim (record_result-cases s.inc r now current) [
          | inl same ↦ rw same m
          | inr (inl (at, script, exit)) ↦ rw at (inr (pod, i, (now, (done, script, exit))))
          | inr (inr (inl (at, script, exit))) ↦
              rw at (inr (inr (pod, i, (now, (done, script, exit)))))
          | inr (inr (inr (at, script, exit))) ↦ rw at (inr (pod, i, (now, (done, script, exit))))
        ])
  ]

  observe_pods-Moves :
      (now : Time) (s : Reconcile) (rest : List Pod) (before : State) (spec : IncidentSpec)
      (pods : List Pod)
      → ((pod : Pod) → In pod rest → In pod pods)
      → Moves before spec pods s.inc.status.state
      → Moves before spec pods (observe_pods cfg now s rest).inc.status.state
  unfolding observe_pods
  observe_pods-Moves now s [] before spec pods sub m = m
  observe_pods-Moves now s (pod ∷ rest) before spec pods sub m =
      observe_pods-Moves now (observe_pod cfg now s pod) rest before spec pods
        (λ q i. sub q (inr i)) (observe_pod-Moves now s pod before spec pods (sub pod (inl refl)) m)

  -- A state that Observe did not find has its reason in the spec that it read or in the pods that
  -- it was shown.
  pub observe_live-Reason :
      (now : Time) (inc : Incident) (runs : LastRuns) (pods : List Pod)
      → let after = (observe_live cfg now inc runs pods).inc.status.state in
        (after ≡ inc.status.state) ⊎ Reason inc.spec pods after
  unfolding observe_live
  observe_live-Reason now inc runs pods =
      observe_pods-Moves now (begin inc runs now) (sort_pods pods) inc.status.state inc.spec pods
        (λ q i. (sort_pods-In q pods).0 i) (apply_spec-Moves inc now pods)
