-- ===== src/Program/Reached.antt =====
-- main.go: the stages that `run` reaches.
use incident_controller.Prelude.{
  ◌↔◌, ◌⊎◌, true, subst, Option-cases, Bool-cases, ◌≡◌, inl, inr, refl, Text, false, Option, none,
  List, [], ◌∷◌, arith, In, is_empty,
}
use incident_controller.Program.Options.{RunOptions, IncidentOptions, ApplyOptions}
use incident_controller.Program.Run.{
  Loaded, Stage, new_manager, setup_incident, setup_apply, setup_check_reader, parsed, unread,
  malformed, TemplateFile, loaded, load_failed, load_pod_template, stages, attempt, run_template,
  run, check_pods_of, incident_options, apply_options, manager_options, ManagerOptions,
}
use incident_controller.Api.Pod.{PodSpec}
use incident_controller.CheckPod.Sandbox.{check_template, CheckPods}

attempt-In :
    (fails : Stage → Option Text) (l : List Stage) (s : Stage) → In s (attempt fails l).0 → In s l
unfolding attempt
attempt-In fails [] s i = i
attempt-In fails (t ∷ l) s i = ground (arith, attempt-In fails l s)

check_template_loaded :
    (file : TemplateFile) (spec : PodSpec)
    → load_pod_template file ≡ loaded spec
    → check_template spec ≡ none
unfolding load_pod_template
check_template_loaded file spec e = ground arith

-- A stage that is reached is one of those for a template that LoadPodTemplate accepts.
abbrev pub IsReached : RunOptions → Stage → Type 0
IsReached o s = (t : PodSpec) × (check_template t ≡ none) × In s (stages o (check_pods_of o t))

run_template-In :
    (fails : Stage → Option Text) (o : RunOptions) (l : Loaded) (s : Stage)
    → ((t : PodSpec) → l ≡ loaded t → check_template t ≡ none)
    → In s (run_template fails o l).0
    → IsReached o s
unfolding run_template
run_template-In fails o (loaded t) s a i =
    (t, a t refl, attempt-In fails (stages o (check_pods_of o t)) s i)
run_template-In fails o (load_failed e) s a i = absurd i

pub run-In :
    (fails : Stage → Option Text) (files : Text → TemplateFile) (o : RunOptions) (s : Stage)
    → In s (run fails files o).0
    → IsReached o s
unfolding run
run-In fails files o s i =
    run_template-In fails o (load_pod_template (files o.pod_template)) s
      (λ t. check_template_loaded (files o.pod_template) t) (ground arith)

pub stages-setup_incident :
    (o : RunOptions) (pods : CheckPods) (io : IncidentOptions)
    → In (setup_incident io) (stages o pods)
    → io ≡ incident_options o.incident pods
unfolding stages
stages-setup_incident o pods io i = ground arith

pub stages-setup_apply :
    (o : RunOptions) (pods : CheckPods) (ao : ApplyOptions)
    → In (setup_apply ao) (stages o pods)
    → ao ≡ apply_options o.apply pods
unfolding stages
stages-setup_apply o pods ao i = ground arith

pub stages-new_manager :
    (o : RunOptions) (pods : CheckPods) (mo : ManagerOptions)
    → In (new_manager mo) (stages o pods)
    → mo ≡ manager_options o
unfolding stages
stages-new_manager o pods mo i = ground arith

module _ (fails : Stage → Option Text) (o : RunOptions) where
  abbrev Passes : Stage → Type 0
  Passes s = fails s ≡ none

  -- What stands between a template and the start: each answers without an error. The role of the
  -- check reader is optional.
  abbrev IsSetUp : CheckPods → Type 0
  IsSetUp pods =
      Passes Stage.get_config
      × Passes (new_manager (manager_options o))
      × Passes Stage.add_healthz
      × Passes Stage.add_readyz
      × Passes Stage.add_to_scheme
      × Passes (setup_incident (incident_options o.incident pods))
      × Passes (setup_apply (apply_options o.apply pods))
      × ((is_empty o.check_reader.role ≡ true) ⊎ Passes (setup_check_reader o.check_reader))

  attempt-IsSetUp :
      (pods : CheckPods) → In Stage.start (attempt fails (stages o pods)).0 ↔ IsSetUp pods
  unfolding stages attempt
  attempt-IsSetUp pods = ground arith

  -- The file holds a template that is accepted, and all is set up with it.
  abbrev Serves : TemplateFile → Type 0
  Serves file =
      (t : PodSpec) × (file ≡ parsed t) × (check_template t ≡ none) × IsSetUp (check_pods_of o t)

  run_template-Serves :
      (file : TemplateFile)
      → In Stage.start (run_template fails o (load_pod_template file)).0 ↔ Serves file
  unfolding run_template load_pod_template
  run_template-Serves (unread e) = (λ i. absurd i, λ (t, f, k, r). cc)
  run_template-Serves (malformed e) = (λ i. absurd i, λ (t, f, k, r). cc)
  run_template-Serves (parsed spec) =
      let (to, from) = attempt-IsSetUp (check_pods_of o spec) in
      (
        λ i. elim (Option-cases (check_template spec)) [
          | inl n ↦ (spec, refl, n, to (ground arith))
          | inr (x, n) ↦ absurd (ground arith)
        ],
        λ (t, f, k, s).
            let same : t ≡ spec = cc in
            let there = from (subst (λ x. IsSetUp (check_pods_of o x)) same s) in
            let accepted : check_template spec ≡ none = cc in ground arith,
      )

  -- The two namespaces are given, and the file serves.
  abbrev pub MayStart : (Text → TemplateFile) → Type 0
  MayStart files =
      (is_empty o.checks_namespace ≡ false)
      × (is_empty o.apply.applies.credentials_namespace ≡ false)
      × Serves (files o.pod_template)

  -- `run` starts the manager exactly when both namespaces are given, the file of the template is read
  -- and accepted, and the manager, its health checks and its scheme, the Incident controller, the
  -- IncidentApply controller and, where a role is named, the check reader are all set up without an
  -- error.
  pub run-start :
      (files : Text → TemplateFile) → In Stage.start (run fails files o).0 ↔ MayStart files
  unfolding run
  run-start files =
      let (to, from) = run_template-Serves (files o.pod_template) in
      (
        λ i. elim (Bool-cases (is_empty o.checks_namespace)) [
          | inl n ↦ absurd (ground arith)
          | inr n ↦ elim (Bool-cases (is_empty o.apply.applies.credentials_namespace)) [
            | inl m ↦ absurd (ground arith)
            | inr m ↦ (n, m, to (ground arith))
          ]
        ],
        λ (n, m, k). rw (n, m, In) (from k),
      )
