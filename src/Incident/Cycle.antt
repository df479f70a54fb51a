-- ===== src/Incident/Cycle.antt =====
-- incident.go and checkpod.go: a check from the reconcile that starts it to the one that reads it.
use incident_controller.Machine.Due.{check_due-spaced}
use incident_controller.Prelude.{
  text_eq_refl, ◌≤◌, ◌+◌, bytes, text_eq, ◌≡◌, ◌≢◌, ◌⊎◌, arith, ap, sym, ◌∙◌, subst, true, false,
  List, [], ◌∷◌, In,
}
use incident_controller.Api.Meta.{Time, was_deleted, value_at}
use incident_controller.Api.Incident.{Incident, Script}
use incident_controller.Api.Pod.{Pod}
use incident_controller.Platform.{Platform}
use incident_controller.Server.{Server, create_pod}
use incident_controller.Machine.Output.{Result, Config}
use incident_controller.Machine.Checks.{type_reproduced, current_script, reproduced, flagged}
use incident_controller.Machine.Moves.{judged, record_result-state}
use incident_controller.CheckPod.Names.{
  label_incident_uid, label_managed_by, label_component, label_script,
}
use incident_controller.CheckPod.Sandbox.{CheckPods, check_pod}
use incident_controller.CheckPod.ResultOf.{script_label, result_of, script_of}
use incident_controller.Incident.LastRuns.{LastRuns, seen}
use incident_controller.Incident.Plan.{Plan}
use incident_controller.Incident.Observe.{
  observe_pod, begin, observe_pods, Reconcile, set_condition, observe_live, conclude, sort_pods,
}
use incident_controller.Incident.Update.{update, persist, reset_applied}
use incident_controller.CheckPod.ReadBack.{script_of-text, IsNamed}
use incident_controller.Machine.Transitions.{apply_spec}
use incident_controller.Machine.Verdicts.{record_result}
use incident_controller.Incident.Alone.{update-create, Stored}
use incident_controller.CheckPod.Runs.{result_of-script}

check_pod-script :
    (p : CheckPods) (inc : Incident) (s : Script) (from : Time)
    → IsNamed s
    → script_of (value_at (check_pod p inc s from).meta.labels label_script) ≡ s
unfolding check_pod value_at text_eq bytes label_component label_managed_by label_incident_uid
    label_script
check_pod-script p inc s from h = script_of-text s h

ready_ne : bytes "Ready" ≢ type_reproduced
unfolding bytes type_reproduced
ready_ne e = cc

module _ ⦃p : Platform⦄ where
  -- The Ready condition does not matter for the script.
  available_script :
      (inc : Incident) → current_script (set_condition inc p.available) ≡ current_script inc
  unfolding current_script flagged
  available_script inc = ground (
    arith,
    p.get-set_conditions_ne inc.status.conditions p.available type_reproduced,
    p.available_kind,
    ready_ne,
  )

  current_script-cases :
      (inc : Incident) → (current_script inc ≡ Script.unset) ⊎ IsNamed (current_script inc)
  unfolding current_script
  current_script-cases inc = ground arith

  current_script-IsNamed :
      (inc : Incident) → current_script inc ≢ Script.unset → IsNamed (current_script inc)
  current_script-IsNamed inc h = ground (arith, current_script-cases inc)

  check_label :
      (pods : CheckPods) (inc i k : Incident) (q pod : Pod) (from : Time)
      → IsNamed (current_script inc)
      → current_script i ≡ current_script inc
      → k ≡ i
      → pod ≡ check_pod pods k (current_script k) from
      → q.meta.labels ≡ pod.meta.labels
      → script_label q ≡ current_script inc
  check_label pods inc i k q pod from n s e m l =
      let scripts : current_script k ≡ current_script inc = ap current_script e ∙ s in
      let n' : IsNamed (current_script k) = subst IsNamed (sym scripts) n in
      ap (λ t. script_of (value_at t label_script)) (l ∙ ap (λ (t : Pod). t.meta.labels) m)
      ∙ check_pod-script pods k (current_script k) from n'
      ∙ scripts

  script_of_status : (i j : Incident) → i.status ≡ j.status → current_script i ≡ current_script j
  unfolding current_script flagged
  script_of_status i j e = cc

  conclude-script :
      (cfg : Config) (now : Time) (before : Incident) (s : Reconcile)
      → let o = conclude cfg now before s in
        o.plan.dirty ≡ false
        → (o.plan.consume_applied ≡ false)
          × (current_script o.inc ≡ current_script before)
          × (o.plan.due ≡ true → current_script before ≢ Script.unset)
  unfolding conclude
  conclude-script cfg now before s h = ground (
    arith,
    p.deep_equal_iff before.status s.inc.status,
    script_of_status s.inc before,
    available_script s.inc,
    check_due-spaced s.inc cfg (s.runs s.inc.meta.uid) now,
  )

  -- A plan that changes no status leaves the script as it was.
  clean-script :
      (cfg : Config) (now : Time) (inc : Incident) (runs : LastRuns) (listed : List Pod)
      → let o = observe_live cfg now inc runs listed in
        o.plan.dirty ≡ false
        → (o.plan.consume_applied ≡ false)
          × (current_script o.inc ≡ current_script inc)
          × (o.plan.due ≡ true → current_script inc ≢ Script.unset)
  unfolding observe_live
  clean-script cfg now inc runs listed h =
      conclude-script cfg now inc (observe_pods cfg now (begin inc runs now) (sort_pods listed)) h

  record_result-meta :
      (inc : Incident) (cfg : Config) (r : Result) (now : Time)
      → (record_result inc cfg r now).0.meta ≡ inc.meta
  unfolding record_result
  record_result-meta inc cfg r now = ground arith

  -- The run of a pod that carries the script that the incident runs is recorded.
  observe_live-one :
      (cfg : Config) (now : Time) (inc : Incident) (runs : LastRuns) (q : Pod)
      → inc.spec.closed ≡ false
      → inc.spec.applied ≡ false
      → was_deleted q.meta ≡ false
      → (result_of q cfg.check_timeout now).1 ≡ true
      → (result_of q cfg.check_timeout now).0.script ≡ current_script inc
      → current_script inc ≢ Script.unset
      → let r = (result_of q cfg.check_timeout now).0 in
        let o = observe_live cfg now inc runs (q ∷ []) in
        (o.inc.status.state
          ≡ judged inc.status.state
              (reproduced inc)
              inc.status.verifying_since
              cfg.settle_window
              r.exit
              r.at)
        × (o.plan.stale ≡ q ∷ [])
        × ((o.plan.due ≡ false) ⊎ (r.at ≡ 0) ⊎ (r.at + cfg.poll_interval ≤ now))
  unfolding observe_live conclude sort_pods observe_pods observe_pod begin apply_spec seen
  observe_live-one cfg now inc runs q c a d done same k =
      let r = (result_of q cfg.check_timeout now).0 in
      let uid = (record_result inc cfg r now).0.meta.uid in
      ground (
        arith,
        record_result-state inc cfg r now same (λ e. k (sym same ∙ e)),
        record_result-meta inc cfg r now,
        text_eq_refl inc.meta.uid,
        check_due-spaced (record_result inc cfg r now).0 cfg (seen runs inc.meta.uid r.at uid) now,
      )

module _ ⦃p : Platform⦄ ⦃srv : Server⦄ where
  Stored-clean :
      (plan : Plan) (inc k : Incident)
      → plan.dirty ≡ false
      → plan.consume_applied ≡ false
      → Stored plan inc k
      → k ≡ inc
  unfolding persist reset_applied
  Stored-clean plan inc k d c (j, h, h', e, e') = ground arith

  -- A reconcile that changes no status, and starts a check, is followed up: whenever the incident
  -- comes back with that check's pod and no other, not deleted and its run done, the state is the one that the
  -- exit code of the run asks for, the pod is to be deleted, and another check is due only a poll
  -- interval after the end of the run, where that is known. No decision may be asked in spec; what else the server
  -- answers is arbitrary, and it may change the pod but for its labels.
  pub update-judged :
      (cfg : Config) (now later : Time) (inc : Incident) (runs runs' : LastRuns) (listed : List Pod)
      (pods : CheckPods) (pod q : Pod)
      → let o = observe_live cfg now inc runs listed in
        let (r, done) = result_of q cfg.check_timeout later in
        let o' = observe_live cfg later inc runs' (q ∷ []) in
        o.plan.dirty ≡ false
        → In (create_pod pod) (update pods o.plan o.inc []).1
        → inc.spec.closed ≡ false
        → inc.spec.applied ≡ false
        → q.meta.labels ≡ pod.meta.labels
        → was_deleted q.meta ≡ false
        → done ≡ true
        → (o'.inc.status.state
            ≡ judged inc.status.state
                (reproduced inc)
                inc.status.verifying_since
                cfg.settle_window
                r.exit
                r.at)
          × (o'.plan.stale ≡ q ∷ [])
          × ((o'.plan.due ≡ false) ⊎ (r.at ≡ 0) ⊎ (r.at + cfg.poll_interval ≤ later))
  update-judged cfg now later inc runs runs' listed pods pod q clean i c a same d done =
      let o = observe_live cfg now inc runs listed in
      let (due, (k, stored, made), gone) = update-create pods o.plan o.inc pod i in
      let (kept, script, runs_one) = clean-script cfg now inc runs listed clean in
      let named = current_script-IsNamed inc (runs_one due) in
      let labelled : script_label q ≡ current_script inc =
        check_label pods inc o.inc k q pod o.plan.from named script
          (Stored-clean o.plan o.inc k clean kept stored) made same in
      observe_live-one cfg later inc runs' q c a d done
        (result_of-script q cfg.check_timeout later ∙ labelled) (runs_one due)
