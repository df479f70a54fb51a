-- ===== src/CheckPod/Sandbox.antt =====
-- checkpod.go: the pods that run scripts, and the objects that go with them.
use incident_controller.Prelude.{
  ℕ, ◌/◌, ◌++◌, Text, Bool, true, false, ◌||◌, Option, none, some, List, [], ◌∷◌, bytes, is_empty,
  text_eq, if◌then◌else◌,
}
use incident_controller.Api.Meta.{Time, Duration, second, OwnerReference, ObjectMeta}
use incident_controller.Api.Incident.{Incident, Script}
use incident_controller.Api.IncidentApply.{IncidentApply}
use incident_controller.Api.Pod.{
  Pod, PodSpec, PodStatus, PodPhase, PodSecurityContext, SecurityContext, SeccompProfile, Container,
  VolumeMount, Volume, config_map_source, secret_source, empty_dir_source, TerminationMessagePolicy,
  RestartPolicy, DnsPolicy, ConfigMap, Secret,
}
use incident_controller.Machine.Checks.{script_body}
use incident_controller.CheckPod.Names.{
  container_name, script_volume, tmp_volume, kubeconfig_volume, script_key, kubeconfig_key,
  check_name, check_meta, apply_meta,
}

pub record CheckPods : Type 0 where
  pub namespace : Text
  pub template : PodSpec
  pub timeout : Duration

-- What LoadPodTemplate refuses in a template that it has read.
pub data TemplateError : Type 0 where
  container_count no_service_account reserved_volume : TemplateError

unfoldable pub is_reserved : Text → Bool
is_reserved name =
    text_eq name script_volume || text_eq name tmp_volume || text_eq name kubeconfig_volume

unfoldable pub reserved_in : List Volume → Bool
unfolding is_reserved
reserved_in [] = false
reserved_in (v ∷ vs) = is_reserved v.name || reserved_in vs

unfoldable pub one_container : List Container → Bool
one_container (c ∷ []) = true
one_container _ = false

-- LoadPodTemplate after the file is read and parsed; `none` accepts the template.
unfoldable pub check_template : PodSpec → Option TemplateError
unfolding reserved_in one_container
check_template spec =
    if one_container spec.containers
    then if is_empty spec.service_account_name
      then some TemplateError.no_service_account
      else if reserved_in spec.volumes
      then some TemplateError.reserved_volume
      else none
    else some TemplateError.container_count

unfoldable pub pod_security : Option PodSecurityContext → PodSecurityContext
pod_security none = record {
  run_as_non_root = some true;
  seccomp_profile = some SeccompProfile.runtime_default;
  run_as_user = none;
}
pod_security (some c) = record c {
  run_as_non_root = some true;
  seccomp_profile = elim c.seccomp_profile [
    | none ↦ some SeccompProfile.runtime_default
    | some s ↦ some s
  ];
}

abbrev pub no_security : SecurityContext
no_security = record {
  privileged = none;
  allow_privilege_escalation = none;
  read_only_root_filesystem = none;
  run_as_non_root = none;
  capabilities_add = [];
  capabilities_drop = [];
  seccomp_profile = none;
  run_as_user = none;
}

unfoldable pub container_security : Option SecurityContext → SecurityContext
unfolding bytes
container_security c = record (elim c [ none ↦ no_security | some s ↦ s ]) {
  privileged = some false;
  allow_privilege_escalation = some false;
  read_only_root_filesystem = some true;
  run_as_non_root = some true;
  capabilities_add = [];
  capabilities_drop = bytes "ALL" ∷ [];
}

abbrev pub mount : Text → Text → Bool → VolumeMount
mount name path read_only = record { name = name; mount_path = path; read_only = read_only }

unfoldable pub sandbox_container : Container → Container
unfolding container_security bytes
sandbox_container c = record c {
  name = container_name;
  command = bytes "bash" ∷ bytes "/check/check.sh" ∷ [];
  args = [];
  env = c.env ++ record { name = bytes "HOME"; value = bytes "/tmp" } ∷ [];
  volume_mounts =
      c.volume_mounts
      ++ mount script_volume (bytes "/check") true ∷ mount tmp_volume (bytes "/tmp") false ∷ [];
  security_context = some (container_security c.security_context);
  termination_message_policy = TerminationMessagePolicy.fallback_to_logs_on_error;
}

-- The settings of the pod's one container. On a template with none the source panics; LoadPodTemplate
-- admits no such template.
abbrev pub on_first {ℓ} : {A : Type ℓ} → (A → A) → List A → List A
on_first f [] = []
on_first f (x ∷ xs) = f x ∷ xs

abbrev pub read_only_mode : ℕ
read_only_mode = 0o444

abbrev pub new_status : PodStatus
new_status = record {
  phase = PodPhase.pending;
  reason = [];
  start_time = none;
  container_statuses = [];
}

unfoldable pub sandbox : CheckPods → ObjectMeta → Duration → Pod
unfolding pod_security sandbox_container bytes
sandbox p m timeout = record {
  meta = m;
  spec = record (p.template) {
    restart_policy = RestartPolicy.restart_never;
    active_deadline_seconds = some (timeout / second);
    enable_service_links = some false;
    host_network = false;
    host_pid = false;
    host_ipc = false;
    dns_policy = DnsPolicy.dns_none;
    nameservers = bytes "127.0.0.1" ∷ [];
    security_context = some (pod_security p.template.security_context);
    volumes =
        p.template.volumes
        ++ record { name = script_volume; source = config_map_source m.name read_only_mode }
          ∷ record { name = tmp_volume; source = empty_dir_source (some (bytes "16Mi")) }
          ∷ [];
    containers = on_first sandbox_container p.template.containers;
  };
  status = new_status;
}

abbrev pub with_token : Pod → Bool → Pod
with_token pod b = record pod {
  spec = record (pod.spec) { automount_service_account_token = some b };
}

-- `CheckPods.Pod`: the check pod for the run of a script due a poll interval after `from`.
unfoldable pub check_pod : CheckPods → Incident → Script → Time → Pod
unfolding sandbox check_meta check_name
check_pod p inc s from =
    with_token (sandbox p (check_meta p.namespace inc (check_name inc s from) s) p.timeout) true

unfoldable pub with_kubeconfig : Container → Container
unfolding bytes
with_kubeconfig c = record c {
  env = c.env ++ record { name = bytes "KUBECONFIG"; value = bytes "/kube/config" } ∷ [];
  volume_mounts = c.volume_mounts ++ mount kubeconfig_volume (bytes "/kube") true ∷ [];
}

-- `CheckPods.ApplyPod`: no service account token; kubectl uses the requester's kubeconfig.
unfoldable pub apply_pod : CheckPods → IncidentApply → Duration → Pod
unfolding sandbox apply_meta with_kubeconfig
apply_pod p ia timeout =
    let pod = with_token (sandbox p (apply_meta p.namespace ia) timeout) false in
    record pod {
      spec = record (pod.spec) {
        volumes =
            pod.spec.volumes
            ++ record {
              name = kubeconfig_volume;
              source = secret_source pod.meta.name read_only_mode;
            }
              ∷ [];
        containers = on_first with_kubeconfig pod.spec.containers;
      };
    }

unfoldable pub owned_by : Pod → List OwnerReference
unfolding bytes
owned_by pod =
    record {
      api_version = bytes "v1";
      kind = bytes "Pod";
      name = pod.meta.name;
      uid = pod.meta.uid;
      controller = some true;
    }
    ∷ []

-- `CheckPods.ConfigMap`, and the objects of an apply run.
unfoldable pub check_config_map : CheckPods → Incident → Pod → Script → ConfigMap
unfolding check_meta owned_by script_body
check_config_map p inc pod s = record {
  meta = record (check_meta p.namespace inc pod.meta.name s) { owner_references = owned_by pod };
  contents = (script_key, script_body inc s) ∷ [];
}

unfoldable pub apply_secret : CheckPods → IncidentApply → Pod → Text → Secret
unfolding apply_meta owned_by
apply_secret p ia pod kubeconfig = record {
  meta = record (apply_meta p.namespace ia) { owner_references = owned_by pod };
  contents = (kubeconfig_key, kubeconfig) ∷ [];
}

unfoldable pub apply_config_map : CheckPods → IncidentApply → Pod → Text → ConfigMap
unfolding apply_meta owned_by
apply_config_map p ia pod script = record {
  meta = record (apply_meta p.namespace ia) { owner_references = owned_by pod };
  contents = (script_key, script) ∷ [];
}
