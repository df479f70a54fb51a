-- ===== src/Incident/Safety.antt =====
-- incident.go: what Observe keeps, whatever pods it finds.
use incident_controller.Prelude.{inr, inl, text_eq_iff, ap, true, List, [], ◌∷◌, ◌≡◌, ◌⊎◌, arith}
use incident_controller.Api.Meta.{Time}
use incident_controller.Api.Incident.{Incident, Script, script_eq}
use incident_controller.Api.Pod.{Pod}
use incident_controller.Platform.{Platform}
use incident_controller.Machine.Output.{Config, Result}
use incident_controller.Machine.Checks.{current_script}
use incident_controller.Machine.Verdicts.{record_result}
use incident_controller.Machine.Lifecycle.{
  IsWellFormed, apply_spec-IsWellFormed, record_result-IsWellFormed,
}
use incident_controller.Machine.Moves.{◌⟶*◌, ⟶*-trans, apply_spec-⟶*, record_result-⟶*}
use incident_controller.CheckPod.ResultOf.{result_of}
use incident_controller.Incident.Observe.{
  Reconcile, observe_pod, observe_pods, begin, observe_live, sort_pods,
}
use incident_controller.Incident.LastRuns.{LastRuns}

pub script_eq_sound : (s t : Script) → script_eq s t ≡ true → s ≡ t
script_eq_sound (Script.other s) (Script.other t) h = ap Script.other ((text_eq_iff s t).0 h)
script_eq_sound Script.precondition t h = ground arith
script_eq_sound _ t h = ground arith

module _ ⦃p : Platform⦄ where
  -- A round of the loop leaves the incident, or records a run of its current script.
  observe_pod-cases :
      (cfg : Config) (now : Time) (s : Reconcile) (pod : Pod)
      → let r = (result_of pod cfg.check_timeout now).0 in
        ((observe_pod cfg now s pod).inc ≡ s.inc)
        ⊎ ((r.script ≡ current_script s.inc)
            × ((observe_pod cfg now s pod).inc ≡ (record_result s.inc cfg r now).0))
  unfolding observe_pod
  observe_pod-cases cfg now s pod =
      let r = (result_of pod cfg.check_timeout now).0 in
      ground (arith, script_eq_sound r.script (current_script s.inc))

  -- What recording a run of the current script keeps, the loop over the pods keeps.
  pub observe_pods-keeps {ℓ} :
      (P : Incident → Type ℓ) (cfg : Config) (now : Time)
      → ((inc : Incident) (r : Result)
          → r.script ≡ current_script inc
          → P inc
          → P (record_result inc cfg r now).0)
      → (s : Reconcile) (pods : List Pod) → P s.inc
      → P (observe_pods cfg now s pods).inc
  unfolding observe_pods
  observe_pods-keeps P cfg now keep s [] h = h
  observe_pods-keeps P cfg now keep s (pod ∷ pods) h =
      observe_pods-keeps P cfg now keep (observe_pod cfg now s pod) pods
        (elim (observe_pod-cases cfg now s pod) [
          | inl e ↦ rw e h
          | inr (current, e) ↦ rw e (keep s.inc (result_of pod cfg.check_timeout now).0 current h)
        ])

  -- Observe keeps a status well formed, whatever pods it finds.
  pub observe_live-IsWellFormed :
      (cfg : Config) (now : Time) (inc : Incident) (runs : LastRuns) (pods : List Pod)
      → IsWellFormed inc.status
      → IsWellFormed (observe_live cfg now inc runs pods).inc.status
  unfolding observe_live
  observe_live-IsWellFormed cfg now inc runs pods v =
      let kept =
        observe_pods-keeps (λ i. IsWellFormed i.status) cfg now
          (λ i r. record_result-IsWellFormed i cfg r now) (begin inc runs now) (sort_pods pods)
          (apply_spec-IsWellFormed inc now v) in
      record { window = kept.window; ended = kept.ended }

  -- Observe moves an incident along the edges of its lifecycle, whatever pods it finds.
  pub observe_live-⟶* :
      (cfg : Config) (now : Time) (inc : Incident) (runs : LastRuns) (pods : List Pod)
      → inc.status.state ⟶* (observe_live cfg now inc runs pods).inc.status.state
  unfolding observe_live
  observe_live-⟶* cfg now inc runs pods =
      observe_pods-keeps (λ i. inc.status.state ⟶* i.status.state) cfg now
        (λ i r current path. ⟶*-trans path (record_result-⟶* i cfg r now current))
        (begin inc runs now) (sort_pods pods) (apply_spec-⟶* inc now)
