-- ===== src/Api/Pod.antt =====
-- The Kubernetes objects that the controllers build and read: corev1.Pod, corev1.ConfigMap and
-- corev1.Secret, with the fields that they set or read, and of a pod template some that they only
-- pass on, the init containers among them.
use incident_controller.Prelude.{ℕ, ℤ, Text, Bool, Option, List}
use incident_controller.Api.Meta.{Time, TextMap, ObjectMeta}

pub data RestartPolicy : Type 0 where
  restart_always restart_on_failure restart_never : RestartPolicy

pub data DnsPolicy : Type 0 where
  cluster_first cluster_first_with_host_net dns_default dns_none : DnsPolicy

pub data SeccompProfile : Type 0 where
  runtime_default unconfined localhost : SeccompProfile

pub record PodSecurityContext : Type 0 where
  pub run_as_non_root : Option Bool
  pub seccomp_profile : Option SeccompProfile
  pub run_as_user : Option ℕ

pub record SecurityContext : Type 0 where
  pub privileged : Option Bool
  pub allow_privilege_escalation : Option Bool
  pub read_only_root_filesystem : Option Bool
  pub run_as_non_root : Option Bool
  pub capabilities_add : List Text
  pub capabilities_drop : List Text
  pub seccomp_profile : Option SeccompProfile
  pub run_as_user : Option ℕ

pub record EnvVar : Type 0 where
  pub name : Text
  pub value : Text

pub record VolumeMount : Type 0 where
  pub name : Text
  pub mount_path : Text
  pub read_only : Bool

pub data VolumeSource : Type 0 where
  config_map_source : Text → ℕ → VolumeSource
  secret_source : Text → ℕ → VolumeSource
  empty_dir_source : Option Text → VolumeSource
  other_source : Text → VolumeSource

pub record Volume : Type 0 where
  pub name : Text
  pub source : VolumeSource

pub data TerminationMessagePolicy : Type 0 where
  read_file fallback_to_logs_on_error : TerminationMessagePolicy

pub record Container : Type 0 where
  pub name : Text
  pub image : Text
  pub command : List Text
  pub args : List Text
  pub env : List EnvVar
  pub volume_mounts : List VolumeMount
  pub security_context : Option SecurityContext
  pub termination_message_policy : TerminationMessagePolicy

pub record PodSpec : Type 0 where
  pub service_account_name : Text
  pub automount_service_account_token : Option Bool
  pub restart_policy : RestartPolicy
  pub active_deadline_seconds : Option ℕ
  pub enable_service_links : Option Bool
  pub host_network : Bool
  pub host_pid : Bool
  pub host_ipc : Bool
  pub dns_policy : DnsPolicy
  pub nameservers : List Text
  pub security_context : Option PodSecurityContext
  pub volumes : List Volume
  pub init_containers : List Container
  pub containers : List Container

pub data PodPhase : Type 0 where
  pending running succeeded failed unknown : PodPhase

pub record ContainerStateTerminated : Type 0 where
  pub exit_code : ℤ
  pub message : Text
  pub finished_at : Time

pub record ContainerStatus : Type 0 where
  pub name : Text
  pub terminated : Option ContainerStateTerminated

pub record PodStatus : Type 0 where
  pub phase : PodPhase
  pub reason : Text
  pub start_time : Option Time
  pub container_statuses : List ContainerStatus

pub record Pod : Type 0 where
  pub meta : ObjectMeta
  pub spec : PodSpec
  pub status : PodStatus

pub record ConfigMap : Type 0 where
  pub meta : ObjectMeta
  pub contents : TextMap

pub record Secret : Type 0 where
  pub meta : ObjectMeta
  pub contents : TextMap
