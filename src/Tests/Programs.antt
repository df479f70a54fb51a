-- ===== src/Tests/Programs.antt =====
-- The theorems about the program's start and the output of a run, at inputs.
use incident_controller.Prelude.{
  ◌↔◌, ℤ, ◌≡◌, refl, arith, Text, false, Option, none, some, [], ◌∷◌, bytes, inl, inr, In,
}
use incident_controller.Api.Meta.{Time, minute}
use incident_controller.Api.Incident.{Incident, Script}
use incident_controller.CheckPod.Sandbox.{check_template, check_pod, check_config_map}
use incident_controller.CheckPod.Confined.{IsSandboxed}
use incident_controller.Program.Options.{
  default_flags, Flags, RunOptions, IncidentOptions, ApplyOptions, run_options,
}
use incident_controller.Program.Run.{
  Stage, new_manager, setup_incident, setup_apply, TemplateFile, parsed, run, check_pods_of,
  incident_options, apply_options, manager_options, stage_failed, no_checks_namespace,
}
use incident_controller.Program.Reached.{MayStart, run-start}
use incident_controller.Program.Confined.{run-check_pods, run-check_objects, IsCached}
use incident_controller.Apply.Observe.{Answers, observe_apply}
use incident_controller.Apply.Output.{streamed, pod_logs, to_valid_utf8, rune_width}
use incident_controller.Apply.Valid.{IsOutput, observe_apply-IsOutput}
use incident_controller.Tests.Library.{platform}
use incident_controller.Tests.Objects.{template, at_second, verifying}
use incident_controller.Tests.Applies.{apply_cfg, reads_of, done_pod, running_request}
use incident_controller.Tests.Requests.{cluster, libraries}

abbrev flags : Flags
flags = record {
  sync_period = minute;
  poll = minute;
  settle_window = minute;
  check_timeout = minute;
  checks_namespace = bytes "checks";
  apply_timeout = minute;
  apply_ttl = minute;
  credentials_namespace = bytes "auth";
  check_pod_template = bytes "check-pod.yaml";
  max_reconcile_rate = ℤ.pos 5;
  leader_election = false;
  global_reconcile_rate = ℤ.pos 20;
  timeout = minute;
  check_reader_role = bytes "reader";
  check_reader_refresh = minute;
}

abbrev answers_well : Stage → Option Text
answers_well s = none

abbrev files : Text → TemplateFile
files name = parsed template

abbrev options : RunOptions
options = run_options flags

template_accepted : check_template template ≡ none
unfolding check_template bytes
template_accepted = refl

starts : In Stage.start (run answers_well files options).0
unfolding run bytes run_options
starts = inr (inr (inr (inr (inr (inr (inr (inr (inl refl))))))))

run-start_example :
    In Stage.start (run answers_well files options).0 ↔ MayStart answers_well options files
run-start_example = run-start answers_well options files

-- The run stops at the first stage that fails.
abbrev no_config : Stage → Option Text
no_config s = some (bytes "no config")

run_stops :
    (run no_config files options).1 ≡ some (stage_failed Stage.get_config (bytes "no config"))
unfolding run bytes run_options
run_stops = refl

run_needs_namespace :
    run answers_well files (record options { checks_namespace = [] })
    ≡ ([], some no_checks_namespace)
unfolding run
run_needs_namespace = refl

default_needs_namespace :
    run answers_well files (run_options default_flags) ≡ ([], some no_checks_namespace)
unfolding run run_options default_flags
default_needs_namespace = refl

abbrev pub incident_setup : IncidentOptions
incident_setup = incident_options options.incident (check_pods_of options template)

abbrev pub apply_setup : ApplyOptions
apply_setup = apply_options options.apply (check_pods_of options template)

incident_is_set_up : In (setup_incident incident_setup) (run answers_well files options).0
unfolding run bytes run_options
incident_is_set_up = inr (inr (inr (inr (inr (inl refl)))))

apply_is_set_up : In (setup_apply apply_setup) (run answers_well files options).0
unfolding run bytes run_options
apply_is_set_up = inr (inr (inr (inr (inr (inr (inl refl))))))

manager_is_made : In (new_manager (manager_options options)) (run answers_well files options).0
unfolding run bytes run_options
manager_is_made = inr (inl refl)

run-check_pods_example :
    (incident_setup.checks.poll_interval ≡ minute)
    × (incident_setup.checks.check_timeout ≡ minute)
    × ((inc : Incident) (s : Script) (from : Time)
        → IsSandboxed minute incident_setup.pods.template.init_containers
            (check_pod incident_setup.pods inc s from))
run-check_pods_example = run-check_pods answers_well files flags incident_setup incident_is_set_up

run-check_objects_example :
    let pod = check_pod incident_setup.pods verifying Script.verify (at_second 5) in
    IsCached (manager_options options) pod.meta
    × IsCached
        (manager_options options)
        (check_config_map incident_setup.pods verifying pod Script.verify).meta
run-check_objects_example =
    run-check_objects answers_well files flags (manager_options options) manager_is_made
      incident_setup incident_is_set_up verifying Script.verify (at_second 5)

-- A stray continuation byte, and a rune that the end cuts, are left out.
valid_part : to_valid_utf8 (0xa9 ∷ 0x68 ∷ 0xc3 ∷ 0xa9 ∷ 0xe2 ∷ 0x82 ∷ []) ≡ 0x68 ∷ 0xc3 ∷ 0xa9 ∷ []
unfolding to_valid_utf8 rune_width
valid_part = refl

-- The run wrote in two chunks.
abbrev streamed_answers : Answers
streamed_answers = record (reads_of (some done_pod)) {
  logs = pod_logs (streamed (bytes "do" ∷ bytes "ne" ∷ []) none);
}

observe_apply-IsOutput_example :
    IsOutput
      (observe_apply cluster apply_cfg streamed_answers
        (at_second 100)
        running_request).0.ia.status.output
observe_apply-IsOutput_example =
    observe_apply-IsOutput cluster apply_cfg streamed_answers (at_second 100) running_request
      (streamed (bytes "do" ∷ bytes "ne" ∷ []) none) refl (omega arith, ([], tt, refl))
