-- ===== src/Tests/Objects.antt =====
-- Incidents, pods and plans to evaluate the definitions on.
use incident_controller.Prelude.{
  text_eq, ℕ, ◌*◌, ◌+◌, ℤ, Text, true, false, Option, none, some, [], ◌∷◌, bytes,
}
use incident_controller.Api.Meta.{value_at, Time, second, minute, ObjectMeta}
use incident_controller.Api.Incident.{Incident, HowToFix, State, Script}
use incident_controller.Api.Pod.{
  Pod, PodSpec, PodPhase, Container, RestartPolicy, DnsPolicy, TerminationMessagePolicy,
}
use incident_controller.Machine.Output.{Config, Result}
use incident_controller.CheckPod.Names.{label_script, container_name}
use incident_controller.CheckPod.Sandbox.{CheckPods, new_status}
use incident_controller.CheckPod.ResultOf.{result_of, deadline_exceeded, script_of}
use incident_controller.Machine.Checks.{type_reproduced, flagged, current_script}

abbrev pub cfg : Config
cfg = record { poll_interval = minute; settle_window = 5 * minute; check_timeout = minute }

-- A time after 1970, in whole seconds.
abbrev pub at_second : ℕ → Time
at_second n = (63_000_000_000 + n) * second

abbrev pub meta_of : Text → Time → ObjectMeta
meta_of name created = record {
  name = name;
  namespace = bytes "ns";
  uid = bytes "uid-1";
  labels = (label_script, bytes "verify") ∷ [];
  annotations = [];
  owner_references = [];
  creation_timestamp = created;
  deletion_timestamp = none;
}

abbrev pub fix : HowToFix
fix = record {
  precondition = bytes "exit 1";
  apply = bytes "true";
  verify = bytes "exit 0";
  rollback = [];
  apply_action = none;
}

abbrev pub incident_in : State → Option Time → Incident
incident_in state since = record {
  meta = meta_of (bytes "incident") 0;
  spec = record {
    alert_ref = record { name = bytes "alert"; namespace = bytes "ns" };
    trigger = none;
    prompt = [];
    triggered_at = none;
    applied = false;
    closed = false;
    reanalysis = none;
  };
  status = record {
    conditions = [];
    state = state;
    how_to_fix = some fix;
    last_checks = none;
    verifying_since = since;
    resolution = none;
    analysis = record {
      report = [];
      root_cause = none;
      sources = [];
      reasoning_trace = [];
      analyzed_resources = [];
      missing_context = [];
      assumptions = [];
      error = [];
      completed_at = none;
      reanalysis = none;
    };
  };
}

abbrev pub verifying : Incident
verifying = incident_in State.verifying (some (at_second 0))

abbrev pub opened : Incident
opened = incident_in State.open_state none

abbrev pub container : Container
container = record {
  name = bytes "any";
  image = bytes "image";
  command = [];
  args = [];
  env = [];
  volume_mounts = [];
  security_context = none;
  termination_message_policy = TerminationMessagePolicy.read_file;
}

abbrev pub template : PodSpec
template = record {
  service_account_name = bytes "check";
  automount_service_account_token = none;
  restart_policy = RestartPolicy.restart_always;
  active_deadline_seconds = none;
  enable_service_links = none;
  host_network = true;
  host_pid = false;
  host_ipc = false;
  dns_policy = DnsPolicy.cluster_first;
  nameservers = [];
  security_context = none;
  volumes = [];
  init_containers = [];
  containers = container ∷ [];
}

abbrev pub check_pods : CheckPods
check_pods = record { namespace = bytes "checks"; template = template; timeout = minute }

-- A verify pod that exited with a code at a time.
abbrev pub exited : ℤ → Time → Pod
exited code at = record {
  meta = meta_of (bytes "pod") (at_second 1);
  spec = template;
  status = record {
    phase = PodPhase.succeeded;
    reason = [];
    start_time = some (at_second 2);
    container_statuses =
        record {
          name = container_name;
          terminated = some (record { exit_code = code; message = []; finished_at = at });
        }
        ∷ [];
  };
}

abbrev pub running : Pod
running = record {
  meta = meta_of (bytes "running") (at_second 3);
  spec = template;
  status = new_status;
}

abbrev pub result : Script → ℤ → Time → Result
result s code at = record { script = s; exit = some code; at = at; output = [] }

-- What tests compute with: a line `unfolding evaluation` opens all of it.
unfoldable pub evaluation : Unit {0}
unfolding bytes text_eq value_at label_script container_name script_of deadline_exceeded result_of
    current_script flagged type_reproduced
evaluation = tt
