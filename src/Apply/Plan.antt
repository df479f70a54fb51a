-- ===== src/Apply/Plan.antt =====
-- apply.go: what Observe found for Create and Update to act on, and the end of a request.
use incident_controller.Prelude.{
  [], ℤ, Text, Bool, true, false, not, ◌&&◌, ◌++◌, Option, none, some, bytes,
}
use incident_controller.Api.Meta.{Time, Duration}
use incident_controller.Api.IncidentApply.{IncidentApply, IncidentApplyStatus, ApplyPhase}
use incident_controller.Api.Pod.{Pod}
use incident_controller.Platform.{Platform}
use incident_controller.Machine.Output.{Result}
use incident_controller.Incident.Plan.{join, part_if}
use incident_controller.Apply.Admission.{ApplyStart}

pub record ApplyConfig : Type 0 where
  pub timeout : Duration
  pub ttl : Duration
  pub credentials_namespace : Text

pub record ApplyPlan : Type 0 where
  -- The request as it was read.
  pub base : IncidentApply
  pub start : Option ApplyStart
  pub dirty : Bool
  pub finished : Bool
  pub run : Option Result
  pub pod : Option Pod
  pub expired : Bool

abbrev pub new_apply_plan : IncidentApply → ApplyPlan
new_apply_plan ia = record {
  base = ia;
  start = none;
  dirty = false;
  finished = false;
  run = none;
  pod = none;
  expired = false;
}

abbrev pub is_some {ℓ} : {A : Type ℓ} → Option A → Bool
is_some none = false
is_some (some _) = true

unfoldable pub apply_plan_text : ApplyPlan → Text
unfolding bytes join
apply_plan_text p = join (
    part_if p.finished (bytes "finished")
    ++ (part_if (p.dirty && not p.finished) (bytes "status changed")
        ++ (part_if (is_some p.pod) (bytes "apply pod to delete")
            ++ part_if p.expired (bytes "TTL passed"))))

-- What an Observe works on: the request in memory, and the plan.
pub record Observed : Type 0 where
  pub ia : IncidentApply
  pub plan : ApplyPlan

abbrev pub with_apply_status : IncidentApply → IncidentApplyStatus → IncidentApply
with_apply_status ia s = record ia { status = s }

module _ ⦃p : Platform⦄ where
  unfoldable pub end_request : ApplyPhase → Text → Option ℤ → Text → Time → Observed → Observed
  end_request phase msg exit output at s = record s {
    ia = with_apply_status s.ia (record (s.ia.status) {
      phase = phase;
      message = msg;
      exit_code = exit;
      output = output;
      finished_at = some (p.rfc3339_copy at);
    });
    plan = record (s.plan) { dirty = true; finished = true };
  }

  unfoldable pub reject : Text → Time → Observed → Observed
  unfolding end_request
  reject why now s = end_request ApplyPhase.rejected why none [] now s
