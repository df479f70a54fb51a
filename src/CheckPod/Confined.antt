-- ===== src/CheckPod/Confined.antt =====
-- checkpod.go: what every pod that runs a script is confined to.
use incident_controller.Prelude.{
  ◌∙◌, ◌/◌, ◌≡◌, ◌≢◌, ◌++◌, inl, inr, refl, sym, ap, true, false, Option, none, some, List, [], ◌∷◌,
  arith, All, In, In-append, length, bytes, text_eq_iff,
}
use incident_controller.Api.Meta.{Time, Duration, second}
use incident_controller.Api.Incident.{Incident, Script}
use incident_controller.Api.IncidentApply.{IncidentApply}
use incident_controller.Api.Pod.{
  Pod, Container, Volume, SecurityContext, PodSecurityContext, DnsPolicy, RestartPolicy,
  config_map_source, secret_source,
}
use incident_controller.CheckPod.Names.{
  script_volume, tmp_volume, kubeconfig_volume, container_name,
}
use incident_controller.CheckPod.Sandbox.{
  with_kubeconfig, container_security, on_first, pod_security, sandbox_container, one_container,
  is_reserved, reserved_in, CheckPods, check_template, check_pod, apply_pod, sandbox,
  read_only_mode,
}

-- A container that runs the script as no user of the node, with no privilege to gain.
pub record IsConfined (c : Container) : Type 0 where
  pub named : c.name ≡ container_name
  pub command : c.command ≡ bytes "bash" ∷ bytes "/check/check.sh" ∷ []
  pub args : c.args ≡ []
  pub context : SecurityContext
  pub secured : c.security_context ≡ some context
  pub privileged : context.privileged ≡ some false
  pub escalation : context.allow_privilege_escalation ≡ some false
  pub root_filesystem : context.read_only_root_filesystem ≡ some true
  pub non_root : context.run_as_non_root ≡ some true
  pub added : context.capabilities_add ≡ []
  pub dropped : context.capabilities_drop ≡ bytes "ALL" ∷ []

-- A pod that is cut off from the node and, with the loopback for its only nameserver, from the
-- network names; runs one confined container to a deadline, once; names a seccomp profile, where
-- that container may name its own; and takes its script from the ConfigMap of its own name. Before
-- that container it runs these init containers, as they are.
pub record IsSandboxed (timeout : Duration) (inits : List Container) (pod : Pod) : Type 0 where
  pub before : pod.spec.init_containers ≡ inits
  pub one : length pod.spec.containers ≡ 1
  pub confined : All IsConfined pod.spec.containers
  pub host_network : pod.spec.host_network ≡ false
  pub host_pid : pod.spec.host_pid ≡ false
  pub host_ipc : pod.spec.host_ipc ≡ false
  pub dns : pod.spec.dns_policy ≡ DnsPolicy.dns_none
  pub nameservers : pod.spec.nameservers ≡ bytes "127.0.0.1" ∷ []
  pub service_links : pod.spec.enable_service_links ≡ some false
  pub restart : pod.spec.restart_policy ≡ RestartPolicy.restart_never
  pub deadline : pod.spec.active_deadline_seconds ≡ some (timeout / second)
  pub context : PodSecurityContext
  pub secured : pod.spec.security_context ≡ some context
  pub non_root : context.run_as_non_root ≡ some true
  pub seccomp : context.seccomp_profile ≢ none
  pub script :
      (v : Volume)
      → In v pod.spec.volumes
      → v.name ≡ script_volume
      → v.source ≡ config_map_source pod.meta.name read_only_mode

reserved_in-In :
    (vs : List Volume) (v : Volume)
    → reserved_in vs ≡ false
    → In v vs
    → (v.name ≢ script_volume) × (v.name ≢ kubeconfig_volume)
unfolding reserved_in is_reserved
reserved_in-In [] v r i = absurd i
reserved_in-In (w ∷ vs) v r (inl e) = ground (
  arith,
  text_eq_iff w.name script_volume,
  text_eq_iff w.name kubeconfig_volume,
  ap (λ (x : Volume). x.name) e,
)
reserved_in-In (w ∷ vs) v r (inr i) = reserved_in-In vs v (ground arith) i

one_container_lem :
    (cs : List Container) → one_container cs ≡ true → (c : Container) × (cs ≡ c ∷ [])
unfolding one_container
one_container_lem [] o = cc
one_container_lem (c ∷ []) o = (c, refl)
one_container_lem (c ∷ d ∷ cs) o = cc

sandbox_container-IsConfined : (c : Container) → IsConfined (sandbox_container c)
unfolding sandbox_container container_security
sandbox_container-IsConfined c = record {
  named = refl;
  command = refl;
  args = refl;
  context = container_security c.security_context;
  secured = refl;
  privileged = refl;
  escalation = refl;
  root_filesystem = refl;
  non_root = refl;
  added = refl;
  dropped = refl;
}

pod_security-non_root :
    (c : Option PodSecurityContext) → (pod_security c).run_as_non_root ≡ some true
unfolding pod_security
pod_security-non_root none = refl
pod_security-non_root (some c) = refl

pod_security-seccomp : (c : Option PodSecurityContext) → (pod_security c).seccomp_profile ≢ none
unfolding pod_security
pod_security-seccomp c = ground arith

-- The volumes that sandbox adds, and no others, have the names that the code reserves.
kubeconfig_volume_source :
    (vs : List Volume) (script tmp v : Volume)
    → reserved_in vs ≡ false
    → script.name ≡ script_volume
    → tmp.name ≡ tmp_volume
    → In v (vs ++ script ∷ tmp ∷ [])
    → v.name ≢ kubeconfig_volume
unfolding script_volume tmp_volume kubeconfig_volume bytes
kubeconfig_volume_source vs script tmp v r s t i n = elim (In-append v vs (script ∷ tmp ∷ []) i) [
  | inl old ↦ (reserved_in-In vs v r old).1 n
  | inr (inl e) ↦ absurd (ground (arith, ap (λ (x : Volume). x.name) e))
  | inr (inr (inl e)) ↦ absurd (ground (arith, ap (λ (x : Volume). x.name) e))
  | inr (inr (inr e)) ↦ absurd e
]

script_volume_source :
    (vs : List Volume) (script tmp v : Volume)
    → reserved_in vs ≡ false
    → script.name ≡ script_volume
    → tmp.name ≡ tmp_volume
    → In v (vs ++ script ∷ tmp ∷ [])
    → v.name ≡ script_volume
    → v ≡ script
unfolding script_volume tmp_volume bytes
script_volume_source vs script tmp v r s t i n = elim (In-append v vs (script ∷ tmp ∷ []) i) [
  | inl old ↦ absurd ((reserved_in-In vs v r old).0 n)
  | inr (inl e) ↦ e
  | inr (inr (inl e)) ↦ absurd (ground (arith, ap (λ (x : Volume). x.name) e))
  | inr (inr (inr e)) ↦ absurd e
]

with_kubeconfig-IsConfined : (c : Container) → IsConfined c → IsConfined (with_kubeconfig c)
unfolding with_kubeconfig
with_kubeconfig-IsConfined c k = record {
  named = k.named;
  command = k.command;
  args = k.args;
  context = k.context;
  secured = k.secured;
  privileged = k.privileged;
  escalation = k.escalation;
  root_filesystem = k.root_filesystem;
  non_root = k.non_root;
  added = k.added;
  dropped = k.dropped;
}

with_kubeconfig_first :
    (cs : List Container)
    → (length cs ≡ 1) × All IsConfined cs
    → (length (on_first with_kubeconfig cs) ≡ 1) × All IsConfined (on_first with_kubeconfig cs)
with_kubeconfig_first [] h = h
with_kubeconfig_first (c ∷ cs) h = (h.0, (with_kubeconfig-IsConfined c h.1.0, h.1.1))

kubeconfig_not_script : kubeconfig_volume ≢ script_volume
unfolding kubeconfig_volume script_volume bytes
kubeconfig_not_script e = cc

module _ (p : CheckPods) (accepted : check_template p.template ≡ none) where
  template_accepted :
      (one_container p.template.containers ≡ true) × (reserved_in p.template.volumes ≡ false)
  unfolding check_template
  template_accepted = ground arith

  sandboxed_containers :
      let cs = on_first sandbox_container p.template.containers in
      (length cs ≡ 1) × All IsConfined cs
  sandboxed_containers =
      let (c, e) = one_container_lem p.template.containers template_accepted.0 in
      rw e (refl, (sandbox_container-IsConfined c, tt))

  -- The check pod of a template that LoadPodTemplate accepts is sandboxed, but for the init
  -- containers, which are those of the template.
  pub check_pod-IsSandboxed :
      (inc : Incident) (s : Script) (from : Time)
      → IsSandboxed p.timeout p.template.init_containers (check_pod p inc s from)
  unfolding check_pod sandbox
  check_pod-IsSandboxed inc s from = record {
    before = refl;
    one = sandboxed_containers.0;
    confined = sandboxed_containers.1;
    host_network = refl;
    host_pid = refl;
    host_ipc = refl;
    dns = refl;
    nameservers = refl;
    service_links = refl;
    restart = refl;
    deadline = refl;
    context = pod_security p.template.security_context;
    secured = refl;
    non_root = pod_security-non_root p.template.security_context;
    seccomp = pod_security-seccomp p.template.security_context;
    script = λ v i n.
        ap (λ (x : Volume). x.source)
          (script_volume_source _ _ _ v template_accepted.1 refl refl i n);
  }

  pub apply_pod-IsSandboxed :
      (ia : IncidentApply) (timeout : Duration)
      → let pod = apply_pod p ia timeout in
        IsSandboxed timeout p.template.init_containers pod
        × (pod.spec.automount_service_account_token ≡ some false)
        × ((v : Volume)
            → In v pod.spec.volumes
            → v.name ≡ kubeconfig_volume
            → v.source ≡ secret_source pod.meta.name read_only_mode)
  unfolding apply_pod sandbox
  apply_pod-IsSandboxed ia timeout =
      let (one, confined) = with_kubeconfig_first _ sandboxed_containers in
      (
        record {
          before = refl;
          one = one;
          confined = confined;
          host_network = refl;
          host_pid = refl;
          host_ipc = refl;
          dns = refl;
          nameservers = refl;
          service_links = refl;
          restart = refl;
          deadline = refl;
          context = pod_security p.template.security_context;
          secured = refl;
          non_root = pod_security-non_root p.template.security_context;
          seccomp = pod_security-seccomp p.template.security_context;
          script = λ v i n. elim (In-append v _ (_ ∷ []) i) [
            | inl old ↦
                ap (λ (x : Volume). x.source)
                  (script_volume_source _ _ _ v template_accepted.1 refl refl old n)
            | inr (inl e) ↦ absurd (kubeconfig_not_script (sym (ap (λ (x : Volume). x.name) e) ∙ n))
            | inr (inr e) ↦ absurd e
          ];
        },
        refl,
        λ v i n. elim (In-append v _ (_ ∷ []) i) [
          | inl old ↦ absurd (kubeconfig_volume_source _ _ _ v template_accepted.1 refl refl old n)
          | inr (inl e) ↦ ap (λ (x : Volume). x.source) e
          | inr (inr e) ↦ absurd e
        ],
      )
