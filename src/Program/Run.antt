-- ===== src/Program/Run.antt =====
-- main.go: `run`, with LoadPodTemplate and the options that the setups of the controllers keep.
use incident_controller.Prelude.{
  Text, Bool, Option, none, some, List, [], ◌∷◌, ◌++◌, is_empty, if◌then◌else◌,
}
use incident_controller.Api.Meta.{Duration, TextMap}
use incident_controller.Api.Pod.{PodSpec}
use incident_controller.CheckPod.Names.{label_component, component_check}
use incident_controller.CheckPod.Sandbox.{CheckPods, TemplateError, check_template}
use incident_controller.Program.Options.{
  RunOptions, CheckOptions, ApplyRunOptions, IncidentOptions, ApplyOptions, CheckReaderOptions,
}

-- What reading the template file and its YAML gives.
pub data TemplateFile : Type 0 where
  unread malformed : Text → TemplateFile
  parsed : PodSpec → TemplateFile

pub data LoadError : Type 0 where
  template_unread template_malformed : Text → LoadError
  template_refused : TemplateError → LoadError

pub data Loaded : Type 0 where
  loaded : PodSpec → Loaded
  load_failed : LoadError → Loaded

unfoldable pub load_pod_template : TemplateFile → Loaded
unfolding check_template
load_pod_template (unread e) = load_failed (template_unread e)
load_pod_template (malformed e) = load_failed (template_malformed e)
load_pod_template (parsed spec) = elim (check_template spec) [
  | none ↦ loaded spec
  | some e ↦ load_failed (template_refused e)
]

-- The options of the manager, but for the addresses that it serves on and the name of its lease.
-- Pods and ConfigMaps are cached in these namespaces, where their labels match.
pub record ManagerOptions : Type 0 where
  pub leader_election : Bool
  pub sync_period : Duration
  pub cached_namespaces : List Text
  pub cached_labels : TextMap

-- What `run` does once it has the template, one after the other.
pub data Stage : Type 0 where
  get_config add_healthz add_readyz add_to_scheme start : Stage
  new_manager : ManagerOptions → Stage
  setup_incident : IncidentOptions → Stage
  setup_apply : ApplyOptions → Stage
  setup_check_reader : CheckReaderOptions → Stage

pub data RunError : Type 0 where
  no_checks_namespace no_credentials_namespace : RunError
  not_loaded : LoadError → RunError
  stage_failed : Stage → Text → RunError

unfoldable pub check_pods_of : RunOptions → PodSpec → CheckPods
check_pods_of o template = record {
  namespace = o.checks_namespace;
  template = template;
  timeout = o.incident.check_timeout;
}

-- The Incident controller takes the poll interval of its checks from the controller's options.
unfoldable pub incident_options : CheckOptions → CheckPods → IncidentOptions
incident_options c pods = record {
  controller = c.controller;
  checks = record {
    poll_interval = c.controller.poll_interval;
    settle_window = c.settle_window;
    check_timeout = c.check_timeout;
  };
  pods = pods;
}

unfoldable pub apply_options : ApplyRunOptions → CheckPods → ApplyOptions
apply_options a pods = record { controller = a.controller; pods = pods; applies = a.applies }

unfoldable pub manager_options : RunOptions → ManagerOptions
manager_options o = record {
  leader_election = o.leader_election;
  sync_period = o.sync_period;
  cached_namespaces = o.checks_namespace ∷ [];
  cached_labels = (label_component, component_check) ∷ [];
}

abbrev check_reader_stage : CheckReaderOptions → List Stage
check_reader_stage r = if is_empty r.role then [] else setup_check_reader r ∷ []

-- `controllers.Setup`.
abbrev controller_stages : IncidentOptions → ApplyOptions → List Stage
controller_stages io ao = setup_incident io ∷ setup_apply ao ∷ []

unfoldable pub stages : RunOptions → CheckPods → List Stage
unfolding manager_options incident_options apply_options
stages o pods =
    get_config
    ∷ new_manager (manager_options o)
    ∷ add_healthz
    ∷ add_readyz
    ∷ add_to_scheme
    ∷ (controller_stages (incident_options o.incident pods) (apply_options o.apply pods)
        ++ (check_reader_stage o.check_reader ++ start ∷ []))

-- The stages that are reached, up to the first that fails, by what each answers.
unfoldable pub attempt : (Stage → Option Text) → List Stage → List Stage × Option RunError
attempt fails [] = ([], none)
attempt fails (s ∷ rest) =
    let (reached, error) = attempt fails rest in
    elim (fails s) [ none ↦ (s ∷ reached, error) | some e ↦ (s ∷ [], some (stage_failed s e)) ]

unfoldable pub run_template :
    (Stage → Option Text) → RunOptions → Loaded → List Stage × Option RunError
unfolding stages attempt check_pods_of
run_template fails o (load_failed e) = ([], some (not_loaded e))
run_template fails o (loaded template) = attempt fails (stages o (check_pods_of o template))

-- `run`: the stages that it reaches, and the error that it returns.
unfoldable pub run :
    (Stage → Option Text) → (Text → TemplateFile) → RunOptions → List Stage × Option RunError
unfolding run_template load_pod_template
run fails files o =
    if is_empty o.checks_namespace
    then ([], some no_checks_namespace)
    else if is_empty o.apply.applies.credentials_namespace
    then ([], some no_credentials_namespace)
    else run_template fails o (load_pod_template (files o.pod_template))
