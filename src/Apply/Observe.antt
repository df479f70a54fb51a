-- ===== src/Apply/Observe.antt =====
-- apply.go: Observe of the IncidentApply controller.
use incident_controller.Prelude.{
  [], ◌∷◌, ◌+◌, ◌||◌, ◌++◌, ℤ, equals, Text, Bool, true, false, Option, none, some, bytes, leb,
  if◌then◌else◌,
}
use incident_controller.Api.Meta.{Time, Duration, Condition, was_deleted, value_at}
use incident_controller.Api.IncidentApply.{IncidentApply, ApplyPhase, terminal}
use incident_controller.Api.Pod.{Pod, ConfigMap}
use incident_controller.Platform.{Platform}
use incident_controller.Server.{
  Fault, Fetched, found, fault, not_found, already_exists, no_match, other,
}
use incident_controller.Machine.Output.{Result}
use incident_controller.CheckPod.Names.{script_key, decimal}
use incident_controller.CheckPod.ResultOf.{result_of}
use incident_controller.Incident.Observe.{Observation}
use incident_controller.Apply.Access.{
  AdmitError, Check, passes, rejects, retries, Libraries, ApiServer,
}
use incident_controller.Apply.Admission.{Reads, ApplyStart, admit}
use incident_controller.Apply.Plan.{
  ApplyConfig, ApplyPlan, new_apply_plan, Observed, with_apply_status, end_request, reject, is_some,
  apply_plan_text,
}

-- The output of a pod, or the error of reading it.
pub data Logs : Type 0 where
  logged unlogged : Text → Logs

-- What the reads of one Observe are answered.
pub record Answers : Type 0 where
  pub pod : Fetched Pod
  pub config_map : Fetched ConfigMap
  pub logs : Logs
  pub admission : Reads

-- The errors of Observe. The last two are wrapped with ReadyAssessed.
pub data ObserveError : Type 0 where
  pod_not_read config_map_not_read : Fault → ObserveError
  not_admitted : AdmitError → ObserveError

pub data Answer : Type 0 where
  observed : Observation → Answer
  fails : ObserveError → Answer

-- A part of Observe goes on, or is the last one.
pub data Flow : Type 0 where
  goes_on : Observed → Flow
  ends : Observed → Answer → Flow

-- getPod: no pod is no error.
abbrev pub pod_of : Fetched Pod → Option Pod
pod_of (found pod) = some pod
pod_of (fault _) = none

abbrev pub pod_error : Fetched Pod → Option ObserveError
pod_error (found pod) = none
pod_error (fault not_found) = none
pod_error (fault already_exists) = some (pod_not_read already_exists)
pod_error (fault no_match) = some (pod_not_read no_match)
pod_error (fault (other t)) = some (pod_not_read (other t))

abbrev with_dirty : Observed → Observed
with_dirty s = record s { plan = record (s.plan) { dirty = true } }

abbrev with_phase_running : Time → Observed → Observed
with_phase_running at s = record s {
  ia =
      with_apply_status s.ia
        (record (s.ia.status) { phase = ApplyPhase.running; started_at = some at });
}

abbrev with_script : Text → Observed → Observed
with_script script s = record s {
  ia = with_apply_status s.ia (record (s.ia.status) { script = script });
}

-- The ConfigMap of the run, by what the read answers.
read_script : Fetched ConfigMap → Observed → Flow
read_script (found cm) s = goes_on (with_dirty (with_script (value_at cm.contents script_key) s))
read_script (fault not_found) s = goes_on (with_dirty s)
read_script (fault f) s = ends s (fails (config_map_not_read f))

-- On an error the request in memory is Running already.
unfoldable pub started : Pod → Fetched ConfigMap → Observed → Flow
unfolding read_script
started pod cm s = read_script cm (with_phase_running pod.meta.creation_timestamp s)

-- `%d` of an int32.
abbrev int_text : ℤ → Text
int_text (ℤ.pos n) = decimal n
int_text (ℤ.negsuc n) = 0x2d ∷ decimal (n + 1)

abbrev unread_text : Logs → Text
unread_text (logged out) = []
unread_text (unlogged e) = bytes "; its output could not be read: " ++ e

abbrev output_text : Logs → Text
output_text (logged out) = out
output_text (unlogged e) = []

-- `r.exit != nil && *r.exit == 0`
abbrev pub end_phase : Option ℤ → ApplyPhase
end_phase none = ApplyPhase.failed
end_phase (some z) = if equals z 0 then ApplyPhase.succeeded else ApplyPhase.failed

module _ ⦃p : Platform⦄ where
  abbrev run_text : Option ℤ → Duration → Text
  run_text (some z) timeout = bytes "the apply script exited " ++ int_text z
  run_text none timeout = bytes "the apply script did not finish within " ++ p.duration_text timeout

  abbrev with_run : Result → Observed → Observed
  with_run r s = record s { plan = record (s.plan) { run = some r } }

  unfoldable pub finish_run : Duration → Result → Logs → Observed → Observed
  unfolding end_request decimal
  finish_run timeout r logs s = with_run r (
      end_request (end_phase r.exit) (run_text r.exit timeout ++ unread_text logs) r.exit
        (output_text logs) r.at s)

  -- A request that has not been acted on, by what its admission found.
  unfoldable pub admit_step : Check ApplyStart → Time → Observed → Flow
  unfolding reject
  admit_step (passes start) now s =
      ends (record s { plan = record (s.plan) { start = some start } })
        (observed (record { resource_exists = false; resource_up_to_date = false; diff = [] }))
  admit_step (rejects why) now s = goes_on (reject why now s)
  admit_step (retries e) now s = ends s (fails (not_admitted e))

  abbrev interrupted_text : Text
  interrupted_text =
      bytes "the run was interrupted before its pod was created; create a new IncidentApply"

  abbrev with_ready : IncidentApply → Condition → IncidentApply
  with_ready ia c =
      with_apply_status ia
        (record (ia.status) { conditions = p.set_conditions ia.status.conditions c })

  -- The status of a Running request, by its pod.
  unfoldable pub running_step : Duration → Option Pod → Logs → Time → Observed → Observed
  unfolding end_request finish_run
  running_step timeout none logs now s =
      end_request ApplyPhase.failed (bytes "the apply pod is gone before the run's result was read")
        none [] now s
  running_step timeout (some pod) logs now s =
      let (r, done) = result_of pod timeout now in if done then finish_run timeout r logs s else s

  abbrev unless_deleted : Option Pod → Option Pod → Option Pod
  unless_deleted none old = old
  unless_deleted (some pod) old = if was_deleted pod.meta then old else some pod

  abbrev expired_at : Option Time → Duration → Time → Bool
  expired_at none ttl now = false
  expired_at (some finished) ttl now = leb (finished + ttl) now

  -- A terminal request's leftovers and TTL.
  unfoldable pub terminal_step : Duration → Option Pod → Time → Observed → Observed
  terminal_step ttl pod now s = record s {
    plan = record (s.plan) {
      pod = unless_deleted pod s.plan.pod;
      expired = expired_at s.ia.status.finished_at ttl now;
    };
  }

  abbrev apply_out_of_date : ApplyPlan → Bool
  apply_out_of_date plan = plan.dirty || is_some plan.pod || plan.expired

  unfoldable pub apply_observation : ApplyPlan → Observation
  unfolding apply_plan_text
  apply_observation plan =
      if apply_out_of_date plan
      then record {
        resource_exists = true;
        resource_up_to_date = false;
        diff = apply_plan_text plan;
      }
      else record { resource_exists = true; resource_up_to_date = true; diff = [] }

  abbrev is_running : ApplyPhase → Bool
  is_running ApplyPhase.running = true
  is_running _ = false

  -- From the second `if` of Observe on.
  unfoldable pub after_admission : ApplyConfig → Option Pod → Logs → Time → Observed → Observed
  unfolding running_step terminal_step
  after_admission cfg pod logs now s =
      let run =
        if is_running s.ia.status.phase then running_step cfg.timeout pod logs now s else s in
      if terminal run.ia.status.phase then terminal_step cfg.ttl pod now run else run

  unfoldable pub finish_observe : ApplyConfig → Option Pod → Logs → Time → Flow → Observed × Answer
  unfolding after_admission apply_observation
  finish_observe cfg pod logs now (goes_on s) =
      let done = after_admission cfg pod logs now s in
      (done, observed (apply_observation done.plan))
  finish_observe cfg pod logs now (ends s a) = (s, a)

  abbrev pub available_request : IncidentApply → Observed
  available_request ia = record { ia = with_ready ia p.available; plan = new_apply_plan ia }

  abbrev pub deleted_request : IncidentApply → Option Pod → Observed × Answer
  deleted_request ia pod = (
    record { ia = with_ready ia p.deleting; plan = new_apply_plan ia },
    observed (record { resource_exists = is_some pod; resource_up_to_date = false; diff = [] }),
  )

abbrev pub is_unset : ApplyPhase → Bool
is_unset ApplyPhase.unset = true
is_unset _ = false

module _ ⦃p : Platform⦄ ⦃lib : Libraries⦄ where
  -- The first `switch` of Observe.
  unfoldable pub first_step :
      ApiServer → ApplyConfig → Answers → Option Pod → Time → Observed → Flow
  unfolding started reject admit_step
  first_step api cfg answers (some pod) now s = started pod answers.config_map s
  first_step api cfg answers none now s =
      if p.create_incomplete s.ia.meta
      then goes_on (reject interrupted_text now s)
      else admit_step (admit api cfg.timeout answers.admission s.ia now) now s

  unfoldable pub begin_apply :
      ApiServer → ApplyConfig → Answers → Option Pod → Time → Observed → Flow
  unfolding first_step
  begin_apply api cfg answers pod now s =
      if is_unset s.ia.status.phase then first_step api cfg answers pod now s else goes_on s

  unfoldable pub observe_read :
      ApiServer → ApplyConfig → Answers → Option Pod → Time → IncidentApply → Observed × Answer
  unfolding begin_apply finish_observe
  observe_read api cfg answers pod now ia =
      if was_deleted ia.meta
      then deleted_request ia pod
      else finish_observe cfg pod answers.logs now
          (begin_apply api cfg answers pod now (available_request ia))

  -- Observe: the request in memory and the plan after it, and what it returns.
  unfoldable pub observe_apply :
      ApiServer → ApplyConfig → Answers → Time → IncidentApply → Observed × Answer
  unfolding observe_read
  observe_apply api cfg answers now ia = elim (pod_error answers.pod) [
    | some e ↦ (record { ia = ia; plan = new_apply_plan ia }, fails e)
    | none ↦ observe_read api cfg answers (pod_of answers.pod) now ia
  ]
