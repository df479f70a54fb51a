-- ===== src/Tests/Applies.antt =====
-- The theorems about the run of a request, at inputs.
use incident_controller.Prelude.{ℤ, ◌≤◌, refl, Option, none, some, [], List, bytes, inl, inr}
use incident_controller.Api.Meta.{minute}
use incident_controller.Api.IncidentApply.{IncidentApply, ApplyPhase, terminal}
use incident_controller.Api.Pod.{Pod}
use incident_controller.Server.{Call, found, fault, not_found}
use incident_controller.Calls
use incident_controller.CheckPod.Sandbox.{apply_pod}
use incident_controller.Apply.Plan.{ApplyConfig, ApplyPlan}
use incident_controller.Apply.Observe.{Answers, logged, observe_apply}
use incident_controller.Apply.Carry.{create_apply, update_apply}
use incident_controller.Apply.Phases.{◌↝*◌, observe_apply-↝*}
use incident_controller.Apply.Consistent.{IsConsistent, observe_apply-IsConsistent}
use incident_controller.Apply.Order.{apply_place, update_apply-InOrder}
use incident_controller.Apply.Once.{World, creates, Reach, here, next, Reach-runs}
use incident_controller.Tests.Library.{platform, server}
use incident_controller.Tests.Objects.{check_pods, at_second, exited}
use incident_controller.Tests.Requests.{admitting, request, pending, answers, cluster, libraries}

abbrev pub apply_cfg : ApplyConfig
apply_cfg = record { timeout = minute; ttl = minute; credentials_namespace = bytes "auth" }

abbrev pub reads_of : Option Pod → Answers
reads_of pod = record {
  pod = elim pod [ none ↦ fault not_found | some q ↦ found q ];
  config_map = fault not_found;
  logs = logged (bytes "done");
  admission = answers;
}

-- A Running request, and its pod that has exited 0.
abbrev pub running_request : IncidentApply
running_request = record (request (bytes "a") ApplyPhase.running none) {
  status = record ((request (bytes "a") ApplyPhase.running none).status) {
    started_at = some (at_second 60);
  };
}

abbrev pub done_pod : Pod
done_pod = exited (ℤ.pos 0) (at_second 90)

abbrev after_run : ApplyPlan × IncidentApply
after_run =
    let o =
      (observe_apply cluster apply_cfg (reads_of (some done_pod)) (at_second 100)
        running_request).0 in
    (o.plan, o.ia)

observe_apply-↝*_example :
    ApplyPhase.running
    ↝* (observe_apply cluster apply_cfg
        (reads_of (some done_pod))
        (at_second 100)
        running_request).0.ia.status.phase
observe_apply-↝*_example =
    observe_apply-↝* cluster apply_cfg (reads_of (some done_pod)) (at_second 100) running_request

observe_apply-IsConsistent_example :
    IsConsistent
      (observe_apply cluster apply_cfg
        (reads_of (some done_pod))
        (at_second 100)
        running_request).0.ia.status
unfolding terminal
observe_apply-IsConsistent_example =
    observe_apply-IsConsistent cluster apply_cfg (reads_of (some done_pod)) (at_second 100)
      running_request (record { finished = refl; exit = refl; start = refl })

update_apply-InOrder_example :
    Calls.InOrder apply_place 5 (update_apply after_run.0 after_run.1 []).1
update_apply-InOrder_example = update_apply-InOrder after_run.0 after_run.1

abbrev calls_of_run : List Call
calls_of_run = (update_apply after_run.0 after_run.1 []).1

abbrev apply_pod_of : Pod
apply_pod_of = apply_pod check_pods pending minute

abbrev before : World
before = record { ia = pending; pod = none; runs = 0 }

abbrev begun : World
begun = record { ia = pending; pod = some apply_pod_of; runs = 1 }

pod_is_created : Reach cluster apply_cfg check_pods before begun
unfolding admitting observe_apply create_apply terminal
pod_is_created = next here (
    creates (reads_of none) (at_second 60) server apply_pod_of refl (inr (inr (inl refl))) refl refl
      refl (λ d. d))

Reach-runs_example : begun.runs ≤ 1
Reach-runs_example = Reach-runs cluster apply_cfg check_pods before begun refl pod_is_created
