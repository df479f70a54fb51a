-- ===== src/Tests/Cycles.antt =====
-- The theorem about a check that is started and read, at an input.
use incident_controller.Prelude.{
  ◌≤◌, ◌+◌, ◌⊎◌, inl, inr, In, refl, false, ◌∷◌, [], true, ◌≡◌, ℤ, ℕ_discrete,
}
use incident_controller.Api.Pod.{Pod}
use incident_controller.Api.Incident.{State, Script}
use incident_controller.Server.{create_pod}
use incident_controller.Tests.Library.{platform, server, status_discrete}
use incident_controller.Tests.Objects.{evaluation, cfg, at_second, verifying, exited, check_pods}
use incident_controller.Incident.Observe.{observe_live, Reconcile}
use incident_controller.CheckPod.Sandbox.{check_pod}
use incident_controller.CheckPod.ResultOf.{result_of}
use incident_controller.Incident.LastRuns.{new_last_runs}
use incident_controller.Machine.Cadence.{next_check_at}
use incident_controller.Incident.Update.{
  announce_all, create_or_read, persist_status, start_check, delete_pods, reset_applied, persist,
  update,
}
use incident_controller.Machine.Moves.{judged}
use incident_controller.Machine.Checks.{reproduced}
use incident_controller.Incident.Cycle.{update-judged}

-- A verify that falls due, with no pod left from an earlier one.
abbrev first : Reconcile
first = observe_live cfg (at_second 200) verifying new_last_runs []

abbrev started_pod : Pod
started_pod = check_pod check_pods first.inc Script.verify first.plan.from

abbrev exited_pod : Pod
exited_pod = record started_pod { status = (exited (ℤ.pos 0) (at_second 210)).status }

abbrev second_one : Reconcile
second_one = observe_live cfg (at_second 211) verifying new_last_runs (exited_pod ∷ [])

first_clean : first.plan.dirty ≡ false
unfolding evaluation observe_live next_check_at new_last_runs status_discrete ℕ_discrete
first_clean = refl

first_creates : In (create_pod started_pod) (update check_pods first.plan first.inc []).1
unfolding evaluation observe_live update persist reset_applied delete_pods start_check
    persist_status create_or_read announce_all next_check_at new_last_runs status_discrete
    ℕ_discrete
first_creates = inr (inl refl)

exited_done : (result_of exited_pod cfg.check_timeout (at_second 211)).1 ≡ true
unfolding evaluation
exited_done = refl

update-judged_example :
    (second_one.inc.status.state
      ≡ judged State.verifying
          (reproduced verifying)
          verifying.status.verifying_since
          cfg.settle_window
          (result_of exited_pod cfg.check_timeout (at_second 211)).0.exit
          (result_of exited_pod cfg.check_timeout (at_second 211)).0.at)
    × (second_one.plan.stale ≡ exited_pod ∷ [])
    × ((second_one.plan.due ≡ false)
        ⊎ ((result_of exited_pod cfg.check_timeout (at_second 211)).0.at ≡ 0)
        ⊎ ((result_of exited_pod cfg.check_timeout (at_second 211)).0.at + cfg.poll_interval
            ≤ at_second 211))
unfolding check_pod
update-judged_example =
    update-judged cfg (at_second 200) (at_second 211) verifying new_last_runs new_last_runs []
      check_pods started_pod exited_pod first_clean first_creates refl refl refl refl exited_done
