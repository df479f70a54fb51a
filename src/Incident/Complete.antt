-- ===== src/Incident/Complete.antt =====
-- incident.go: an Update that reports no error has done what its plan asks for.
use incident_controller.Prelude.{
  if◌then◌else◌, ◌∙◌, sym, Bool-cases, true, List, ◌≡◌, inl, inr, refl, arith,
}
use incident_controller.Api.Meta.{Time}
use incident_controller.Api.Incident.{Incident, Script}
use incident_controller.Api.Pod.{Pod}
use incident_controller.Platform.{Platform}
use incident_controller.Calls.{continue_with-eq-ok, Keeps}
use incident_controller.Server.{
  pod_not_created, pod_not_read, config_map_not_created, ignore_already_exists, create_config_map,
  pure, issue, Server, Call, ok,
}
use incident_controller.Answered.{
  Answered-Keeps, StatusWritten, SpecWritten, Created, PodCreated, issue-Created,
  write_or_read-PodCreated,
}
use incident_controller.Machine.Checks.{current_script}
use incident_controller.CheckPod.Sandbox.{check_config_map, CheckPods, check_pod}
use incident_controller.Incident.Plan.{Plan}
use incident_controller.Incident.Update.{
  create_or_read, update, persist, reset_applied, delete_pods, start_check,
}
use incident_controller.Incident.Steps.{
  Told, Told-Keeps, AllDeleted, AllDeleted-Keeps, delete_pods-AllDeleted, persist-done, IsPersisted,
  persist-IsPersisted, without_applied, IsReset, reset_applied-IsReset, reset_applied-done,
}

module _ ⦃p : Platform⦄ ⦃srv : Server⦄ where
  -- The pod of a check is there, and the ConfigMap that it takes its script from.
  abbrev pub Started : CheckPods → Incident → Script → Time → List Call → Type 0
  Started pods inc s from h =
      (made : Pod) × PodCreated (check_pod pods inc s from) made h
      × Created (create_config_map (check_config_map pods inc made s)) h

  start_check-Started :
      (pods : CheckPods) (inc : Incident) (s : Script) (from : Time) (h h' : List Call)
      → start_check pods inc s from h ≡ (ok tt, h')
      → Keeps h h' × Started pods inc s from h'
  unfolding start_check create_or_read
  start_check-Started pods inc s from h h' e =
      let (made, h₁, first, rest) =
        continue_with-eq-ok (create_or_read (check_pod pods inc s from) h)
          (λ pod.
            issue (create_config_map (check_config_map pods inc pod s))
              (ignore_already_exists config_map_not_created))
          tt h' e in
      let (kept, there) =
        write_or_read-PodCreated pod_not_created pod_not_read (check_pod pods inc s from) made h h₁
          first in
      let (kept', script) =
        issue-Created (create_config_map (check_config_map pods inc made s)) config_map_not_created
          h₁ h' rest in
      (λ c m. kept' c (kept c m), (made, Answered-Keeps _ _ h₁ h' kept' there, script))

  -- A history with all that a plan asks for, each with the answer of the server that makes it so.
  pub record Carried (pods : CheckPods) (plan : Plan) (inc : Incident) (h : List Call)
      : Type 0 where
    pub status : plan.dirty ≡ true → StatusWritten inc h × Told plan.changes h
    pub spec :
        plan.consume_applied ≡ true
        → (i : Incident) × IsPersisted plan inc i × SpecWritten (without_applied i) h
    pub stale : AllDeleted plan.stale h
    pub due :
        plan.due ≡ true
        → (i k : Incident) × IsPersisted plan inc i
          × IsReset plan i k
          × Started pods k (current_script k) plan.from h

  carry_due :
      (pods : CheckPods) (plan : Plan) (inc : Incident) (h h' : List Call)
      → (if plan.due then start_check pods inc (current_script inc) plan.from else pure tt) h
        ≡ (ok tt, h')
      → Keeps h h' × (plan.due ≡ true → Started pods inc (current_script inc) plan.from h')
  carry_due pods plan inc h h' e = elim (Bool-cases plan.due) [
    | inl d ↦
        let done =
          start_check-Started pods inc (current_script inc) plan.from h h' (sym (rw d refl) ∙ e) in
        (done.0, λ _. done.1)
    | inr d ↦ (λ c m. ground arith, λ d'. cc)
  ]

  -- An Update that reports no error has done what its plan asks for, with an answer of the server to
  -- each call that says so: the status is written and the event of each change sent; spec.applied is
  -- set back, in the server's copy of the incident where the status was written; each stale pod is
  -- deleted or not there; and the due check of the incident as it then is has its pod, new or as it
  -- was there under its name, and the ConfigMap with its script.
  pub update-Carried :
      (pods : CheckPods) (plan : Plan) (inc : Incident) (h h' : List Call)
      → update pods plan inc h ≡ (ok tt, h')
      → Carried pods plan inc h'
  unfolding update
  update-Carried pods plan inc h h' e =
      let (i₁, h₁, e₁, r₁) = continue_with-eq-ok (persist plan inc h) _ tt h' e in
      let (i₂, h₂, e₂, r₂) = continue_with-eq-ok (reset_applied plan i₁ h₁) _ tt h' r₁ in
      let (_, h₃, e₃, r₃) = continue_with-eq-ok (delete_pods plan.stale h₂) _ tt h' r₂ in
      let (kept₁, status) = persist-done plan inc i₁ h h₁ e₁ in
      let (kept₂, spec) = reset_applied-done plan i₁ i₂ h₁ h₂ e₂ in
      let (kept₃, deleted) = delete_pods-AllDeleted plan.stale h₂ h₃ e₃ in
      let (kept₄, due) = carry_due pods plan i₂ h₃ h' r₃ in
      let late : Keeps h₂ h' = λ c m. kept₄ c (kept₃ c m) in
      let all : Keeps h₁ h' = λ c m. late c (kept₂ c m) in
      record {
        status = λ d.
            let (written, told) = status d in
            (Answered-Keeps _ _ h₁ h' all written, Told-Keeps plan.changes h₁ h' all told);
        spec = λ d.
            (i₁, persist-IsPersisted plan inc i₁ h h₁ e₁, Answered-Keeps _ _ h₂ h' late (spec d));
        stale = AllDeleted-Keeps plan.stale h₃ h' kept₄ deleted;
        due = λ d. (
          i₁,
          i₂,
          persist-IsPersisted plan inc i₁ h h₁ e₁,
          reset_applied-IsReset plan i₁ i₂ h₁ h₂ e₂,
          due d,
        );
      }
