-- ===== src/Apply/Consistent.antt =====
-- apply.go and the field comments of incidentapply_types.go: what holds of the status of a request.
use incident_controller.Prelude.{
  inr, inl, not, ◌≡◌, ◌⊎◌, Bool, true, false, Option, none, some, ℤ, arith, equals,
}
use incident_controller.Api.Meta.{Time, was_deleted}
use incident_controller.Api.IncidentApply.{IncidentApply, IncidentApplyStatus, ApplyPhase, terminal}
use incident_controller.Api.Pod.{Pod}
use incident_controller.Platform.{Platform}
use incident_controller.Server.{Fetched-cases, found}
use incident_controller.Machine.Output.{Result}
use incident_controller.CheckPod.ResultOf.{result_of}
use incident_controller.Apply.Access.{Libraries, ApiServer}
use incident_controller.Apply.Plan.{ApplyConfig, is_some}
use incident_controller.Apply.Observe.{Answers, observe_apply, end_phase}

abbrev is_zero_exit : Option ℤ → Bool
is_zero_exit none = false
is_zero_exit (some z) = equals z 0

-- The exit code that a phase goes with: Succeeded has 0, Failed another one or none, and a request
-- that did not run, or still runs, has none.
abbrev exit_fits : ApplyPhase → Option ℤ → Bool
exit_fits ApplyPhase.succeeded exit = is_zero_exit exit
exit_fits ApplyPhase.failed exit = not (is_zero_exit exit)
exit_fits _ none = true
exit_fits _ (some _) = false

-- A start is known of a run only.
abbrev start_fits : ApplyPhase → Option Time → Bool
start_fits ApplyPhase.unset start = not (is_some start)
start_fits ApplyPhase.rejected start = not (is_some start)
start_fits _ start = is_some start

pub record IsConsistent (s : IncidentApplyStatus) : Type 0 where
  pub finished : is_some s.finished_at ≡ terminal s.phase
  pub exit : exit_fits s.phase s.exit_code ≡ true
  pub start : start_fits s.phase s.started_at ≡ true

module _ ⦃p : Platform⦄ ⦃lib : Libraries⦄ where
  -- Observe keeps a status consistent, whatever it reads, also where it returns an error: the
  -- finish is recorded exactly in a terminal phase, the exit code is the one that the phase says,
  -- and the start is recorded exactly of what was run.
  pub observe_apply-IsConsistent :
      (api : ApiServer) (cfg : ApplyConfig) (answers : Answers) (now : Time) (ia : IncidentApply)
      → IsConsistent ia.status
      → IsConsistent (observe_apply api cfg answers now ia).0.ia.status
  unfolding observe_apply terminal
  observe_apply-IsConsistent api cfg answers now ia v = ground arith

  -- A run that is to be recorded on the incident is that of the pod that was read, is done, and
  -- ends the request in the phase that its exit code says, with a status that is to be persisted
  -- and an event.
  pub observe_apply-run :
      (api : ApiServer) (cfg : ApplyConfig) (answers : Answers) (now : Time) (ia : IncidentApply)
      (r : Result)
      → let after = (observe_apply api cfg answers now ia).0 in
        after.plan.run ≡ some r
        → ((pod : Pod) × (answers.pod ≡ found pod) × (result_of pod cfg.timeout now ≡ (r, true)))
          × (after.ia.status.phase ≡ end_phase r.exit)
          × (after.ia.status.exit_code ≡ r.exit)
          × (after.plan.dirty ≡ true)
          × (after.plan.finished ≡ true)
  unfolding observe_apply
  observe_apply-run api cfg answers now ia r e = elim (Fetched-cases answers.pod) [
    | inl (pod, f) ↦
        ((pod, f, ground arith), ground arith, ground arith, ground arith, ground arith)
    | inr (x, f) ↦ absurd (ground arith)
  ]

  -- A request that is Running, not being deleted, and whose pod is read, ends with the run of that
  -- pod as soon as the run is done, and stays Running before.
  pub observe_apply-done :
      (api : ApiServer) (cfg : ApplyConfig) (answers : Answers) (now : Time) (ia : IncidentApply)
      (pod : Pod)
      → was_deleted ia.meta ≡ false
      → ia.status.phase ≡ ApplyPhase.running
      → answers.pod ≡ found pod
      → let after = (observe_apply api cfg answers now ia).0 in
        let (r, done) = result_of pod cfg.timeout now in
        ((done ≡ true) × (after.ia.status.phase ≡ end_phase r.exit) × (after.plan.run ≡ some r))
        ⊎ ((done ≡ false) × (after.ia.status.phase ≡ ApplyPhase.running) × (after.plan.run ≡ none))
  unfolding observe_apply terminal
  observe_apply-done api cfg answers now ia pod d h k = ground arith
