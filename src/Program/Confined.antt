-- ===== src/Program/Confined.antt =====
-- main.go with checkpod.go: what the controllers that the program sets up run, and what the
-- manager's cache sees of it.
use incident_controller.Prelude.{bytes, text_eq, ◌≡◌, refl, Text, Option, In, inl, List}
use incident_controller.Api.Meta.{Duration, value_at, Time, ObjectMeta}
use incident_controller.Api.Incident.{Incident, Script}
use incident_controller.Api.IncidentApply.{IncidentApply}
use incident_controller.CheckPod.Confined.{
  IsSandboxed, check_pod-IsSandboxed, apply_pod-IsSandboxed,
}
use incident_controller.CheckPod.ReadBack.{Matches}
use incident_controller.Program.Options.{Flags, IncidentOptions, ApplyOptions, run_options}
use incident_controller.Program.Run.{
  manager_options, check_pods_of, apply_options, incident_options, Stage, TemplateFile, run,
  ManagerOptions, setup_incident, setup_apply, new_manager,
}
use incident_controller.Program.Reached.{
  run-In, stages-setup_incident, stages-setup_apply, stages-new_manager,
}
use incident_controller.CheckPod.Sandbox.{CheckPods, check_config_map, apply_pod, check_pod}
use incident_controller.CheckPod.Names.{component_check, label_component}

module _ (fails : Stage → Option Text) (files : Text → TemplateFile) (f : Flags) where
  abbrev reached : List Stage
  reached = (run fails files (run_options f)).0

  -- If the program sets up the Incident controller, then every check pod that it is given to make
  -- is sandboxed to the deadline of `-check-timeout`, whatever the template file holds in the fields
  -- that sandbox sets; its init containers are those of the template, as they are; and its checks
  -- are as far apart as `-poll` says.
  pub run-check_pods :
      (io : IncidentOptions)
      → In (setup_incident io) reached
      → (io.checks.poll_interval ≡ f.poll)
        × (io.checks.check_timeout ≡ f.check_timeout)
        × ((inc : Incident) (s : Script) (from : Time)
            → IsSandboxed f.check_timeout io.pods.template.init_containers
                (check_pod io.pods inc s from))
  unfolding run_options incident_options check_pods_of
  run-check_pods io i =
      let (t, a, j) = run-In fails files (run_options f) (setup_incident io) i in
      rw (stages-setup_incident (run_options f) (check_pods_of (run_options f) t) io j)
        (refl, refl, check_pod-IsSandboxed (check_pods_of (run_options f) t) a)

  -- If the program sets up the IncidentApply controller, then every apply pod that it is given to
  -- make is sandboxed to the deadline of `-apply-timeout`, but for the init containers of the
  -- template.
  pub run-apply_pods :
      (ao : ApplyOptions)
      → In (setup_apply ao) reached
      → (ao.applies.timeout ≡ f.apply_timeout)
        × ((ia : IncidentApply)
            → IsSandboxed f.apply_timeout ao.pods.template.init_containers
                (apply_pod ao.pods ia f.apply_timeout))
  unfolding run_options apply_options check_pods_of
  run-apply_pods ao i =
      let (t, a, j) = run-In fails files (run_options f) (setup_apply ao) i in
      rw (stages-setup_apply (run_options f) (check_pods_of (run_options f) t) ao j) (
        refl,
        λ ia. (apply_pod-IsSandboxed (check_pods_of (run_options f) t) a ia f.apply_timeout).0,
      )

-- The manager keeps an object of this metadata in its cache of pods and ConfigMaps.
abbrev pub IsCached : ManagerOptions → ObjectMeta → Type 0
IsCached mo m = In m.namespace mo.cached_namespaces × Matches m.labels mo.cached_labels

check_pod_labelled :
    (pods : CheckPods) (inc : Incident) (s : Script) (from : Time)
    → let pod = check_pod pods inc s from in
      let cm = (check_config_map pods inc pod s).meta in
      (pod.meta.namespace ≡ pods.namespace)
      × (value_at pod.meta.labels label_component ≡ component_check)
      × (cm.namespace ≡ pods.namespace)
      × (value_at cm.labels label_component ≡ component_check)
unfolding check_pod check_config_map value_at text_eq bytes label_component
check_pod_labelled pods inc s from = (refl, refl, refl, refl)

apply_pod_labelled :
    (pods : CheckPods) (ia : IncidentApply) (timeout : Duration)
    → let m = (apply_pod pods ia timeout).meta in
      (m.namespace ≡ pods.namespace) × (value_at m.labels label_component ≡ component_check)
unfolding apply_pod value_at text_eq bytes label_component
apply_pod_labelled pods ia timeout = (refl, refl)

module _ (fails : Stage → Option Text) (files : Text → TemplateFile) (f : Flags)
    (mo : ManagerOptions) (managed : In (new_manager mo) (run fails files (run_options f)).0) where
  in_cache :
      (m : ObjectMeta)
      → m.namespace ≡ f.checks_namespace
      → value_at m.labels label_component ≡ component_check
      → IsCached mo m
  unfolding run_options manager_options
  in_cache m n l =
      let (t, a, j) = run-In fails files (run_options f) (new_manager mo) managed in
      rw (stages-new_manager (run_options f) (check_pods_of (run_options f) t) mo j)
        (inl n, (l, tt))

  -- If the program makes a manager and sets up the Incident controller, then every check pod that
  -- the controller is given to make, and its ConfigMap, are among the objects that the manager
  -- caches: the lists of a later Observe can find them.
  pub run-check_objects :
      (io : IncidentOptions)
      → In (setup_incident io) (run fails files (run_options f)).0
      → (inc : Incident) (s : Script) (from : Time)
      → let pod = check_pod io.pods inc s from in
        IsCached mo pod.meta × IsCached mo (check_config_map io.pods inc pod s).meta
  unfolding run_options incident_options check_pods_of
  run-check_objects io i inc s from =
      let (t, a, j) = run-In fails files (run_options f) (setup_incident io) i in
      let pods = check_pods_of (run_options f) t in
      let (n, l, n', l') = check_pod_labelled pods inc s from in
      let pod = check_pod pods inc s from in
      rw (stages-setup_incident (run_options f) pods io j)
        (in_cache pod.meta n l, in_cache (check_config_map pods inc pod s).meta n' l')

  -- If the program makes a manager and sets up the IncidentApply controller, then every apply pod
  -- that the controller is given to make is among the objects that the manager caches, so that its
  -- changes reach the controller.
  pub run-apply_objects :
      (ao : ApplyOptions)
      → In (setup_apply ao) (run fails files (run_options f)).0
      → (ia : IncidentApply) → IsCached mo (apply_pod ao.pods ia ao.applies.timeout).meta
  unfolding run_options apply_options check_pods_of
  run-apply_objects ao i ia =
      let (t, a, j) = run-In fails files (run_options f) (setup_apply ao) i in
      let pods = check_pods_of (run_options f) t in
      let (n, l) = apply_pod_labelled pods ia f.apply_timeout in
      rw (stages-setup_apply (run_options f) pods ao j)
        (in_cache (apply_pod pods ia f.apply_timeout).meta n l)
