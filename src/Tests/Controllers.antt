-- ===== src/Tests/Controllers.antt =====
-- The theorems about the Incident controller and its pods, at inputs.
use incident_controller.Prelude.{
  ℕ_discrete, inr, ◌⊎◌, ℤ, true, none, List, [], ◌∷◌, ◌≡◌, refl, bytes, inl, In,
}
use incident_controller.Api.Meta.{minute, was_deleted}
use incident_controller.Api.Incident.{State, Script, Incident}
use incident_controller.Api.Pod.{Pod}
use incident_controller.Server.{create_pod, Fault, Call, ok, fault, Server}
use incident_controller.Machine.Moves.{◌⟶*◌}
use incident_controller.CheckPod.ResultOf.{result_of}
use incident_controller.CheckPod.Runs.{result_of-no_exit}
use incident_controller.Incident.LastRuns.{new_last_runs}
use incident_controller.Incident.Plan.{Plan, new_plan}
use incident_controller.Incident.Observe.{observe_live, Reconcile}
use incident_controller.Incident.Update.{
  announce_all, create_or_read, persist_status, start_check, delete_pods, reset_applied, persist,
  update,
}
use incident_controller.Incident.Safety.{observe_live-⟶*}
use incident_controller.Incident.Pods.{Accounted, observe_live-Accounted}
use incident_controller.Incident.Settled.{reset}
use incident_controller.Incident.Alone.{Gone, reconcile_alone}
use incident_controller.Incident.Order.{InOrder, update-InOrder}
use incident_controller.Incident.Complete.{Carried, update-Carried}
use incident_controller.Incident.Requeue.{all_seen, latest_end, all_seen-latest_end}
use incident_controller.Tests.Library.{platform, server, status_discrete}
use incident_controller.Tests.Objects.{
  evaluation, cfg, at_second, verifying, exited, running, check_pods,
}
use incident_controller.Machine.Cadence.{next_check_at}
use incident_controller.CheckPod.Sandbox.{check_pod}

abbrev failed_twice : List Pod
failed_twice = exited (ℤ.pos 1) (at_second 100) ∷ exited (ℤ.pos 1) (at_second 400) ∷ []

observe_live-⟶*_example :
    State.verifying
    ⟶* (observe_live cfg (at_second 401) verifying new_last_runs failed_twice).inc.status.state
observe_live-⟶*_example = observe_live-⟶* cfg (at_second 401) verifying new_last_runs failed_twice

observe_live-Accounted_example :
    Accounted cfg
      (at_second 401)
      (observe_live cfg (at_second 401) verifying new_last_runs (running ∷ []))
      running
observe_live-Accounted_example =
    observe_live-Accounted cfg (at_second 401) verifying new_last_runs (running ∷ []) running
      (inl refl)

abbrev finished : Pod
finished = exited (ℤ.pos 1) (at_second 100)

finished_stale :
    In finished
      (observe_live cfg (at_second 200) verifying new_last_runs (finished ∷ [])).plan.stale
unfolding observe_live evaluation
finished_stale = inl refl

check_falls_due :
    (observe_live cfg (at_second 200) verifying new_last_runs (finished ∷ [])).plan.due ≡ true
unfolding observe_live evaluation new_last_runs
check_falls_due = refl

-- The verify that Update starts is listed again before it is done.
abbrev checked : Incident
checked = reset (observe_live cfg (at_second 5) verifying new_last_runs []).inc

abbrev plan : Plan
plan = record (new_plan [] true) { dirty = true; due = true; stale = finished ∷ [] }

update-InOrder_example : InOrder 5 (update check_pods plan verifying []).1
update-InOrder_example = update-InOrder check_pods plan verifying

abbrev calls : List Call
calls = (update check_pods plan verifying []).1

update_ok : update check_pods plan verifying [] ≡ (ok tt, calls)
unfolding update persist reset_applied delete_pods start_check persist_status create_or_read
    announce_all
update_ok = refl

update-Carried_example : Carried check_pods plan verifying calls
update-Carried_example = update-Carried check_pods plan verifying [] calls update_ok

-- A server on which no status can be written.
abbrev refusing : Server
refusing = record server { write_status = λ h inc. fault (Fault.other []) }

all_seen-latest_end_example :
    all_seen ((bytes "a", 5) ∷ (bytes "a", 9) ∷ []) (bytes "a")
    ≡ latest_end (bytes "a") ((bytes "a", 5) ∷ (bytes "a", 9) ∷ [])
all_seen-latest_end_example = all_seen-latest_end ((bytes "a", 5) ∷ (bytes "a", 9) ∷ []) (bytes "a")

result_of-no_exit_example : (result_of running minute (at_second 200)).0.exit ≡ none
result_of-no_exit_example = result_of-no_exit running minute (at_second 200) (inl refl)

-- A verify that exited 1 within the window: the pod is deleted, and verify runs again.
abbrev again : Reconcile
again = observe_live cfg (at_second 401) verifying new_last_runs (finished ∷ [])

abbrev new_pod : Pod
new_pod = check_pod check_pods again.inc Script.verify again.plan.from

creates_again : In (create_pod new_pod) (update check_pods again.plan again.inc []).1
unfolding evaluation observe_live update persist reset_applied delete_pods start_check
    persist_status create_or_read announce_all next_check_at new_last_runs status_discrete
    ℕ_discrete
creates_again = inr (inl refl)

reconcile_alone_example : (was_deleted finished.meta ≡ true) ⊎ Gone finished
reconcile_alone_example =
    reconcile_alone cfg (at_second 401) verifying new_last_runs (finished ∷ []) check_pods new_pod
      finished creates_again (inl refl)
