-- ===== src/Life/Explained.antt =====
-- What holds of an Incident for all its life.
use incident_controller.Prelude.{
  ◌≡◌, ◌⊎◌, inl, inr, ap, ◌∙◌, refl, List, ◌∷◌, ◌++◌, In, In-append_left, In-append_right, true,
  arith, Text,
}
use incident_controller.Api.Meta.{Time}
use incident_controller.Api.Incident.{Incident, IncidentSpec, IncidentStatus, State, Script}
use incident_controller.Api.Pod.{Pod}
use incident_controller.Platform.{Platform}
use incident_controller.Machine.Output.{Config, Result}
use incident_controller.Machine.Verdicts.{record_apply, exit_is}
use incident_controller.CheckPod.Sandbox.{CheckPods}
use incident_controller.CheckPod.ResultOf.{result_of}
use incident_controller.Apply.Access.{Libraries, ApiServer}
use incident_controller.Apply.Plan.{ApplyConfig}
use incident_controller.Incident.Writes.{update-status}
use incident_controller.Apply.Writes.{update_apply-status}
use incident_controller.Apply.Consistent.{observe_apply-run}
use incident_controller.Life.Verdicts.{SomeExited, Reason, observe_live-Reason}
use incident_controller.Life.World.{
  World, Step, Reach, check_written, apply_written, spec_edited, analysis_written, analysis_kept,
  unchanged, next, ◌⇒◌, checked, applied, begins, ends, again_open, again_verifying,
}

module _ ⦃p : Platform⦄ ⦃lib : Libraries⦄ (cfg : Config) (pods : CheckPods) (api : ApiServer)
    (apply_cfg : ApplyConfig) where
  -- At some time the apply pod is done with a run that exited 0.
  abbrev Succeeded : Pod → Type 0
  Succeeded pod =
      (now : Time) × (let (r, done) = result_of pod apply_cfg.timeout now in
        (done ≡ true) × (exit_is r.exit 0 ≡ true))

  -- A state that a person or a script has to bring about has been brought about so: Verifying, as
  -- spec.applied asked, or after a precondition or an apply run that exited 0; Resolved, after a
  -- verify that exited 0; Closed, as spec.closed asked.
  abbrev pub Explained : State → List IncidentSpec → List Pod → List Pod → Type 0
  Explained State.verifying specs shown ran =
      ((s : IncidentSpec) × In s specs × (s.applied ≡ true))
      ⊎ SomeExited cfg.check_timeout Script.precondition 0 shown
      ⊎ ((pod : Pod) × In pod ran × Succeeded pod)
  Explained State.resolved specs shown ran = SomeExited cfg.check_timeout Script.verify 0 shown
  Explained State.closed specs shown ran = (s : IncidentSpec) × In s specs × (s.closed ≡ true)
  Explained _ specs shown ran = Unit {0}

  abbrev pub IsExplained : World → Type 0
  IsExplained w = Explained w.inc.status.state w.specs w.checks w.applies

  -- The apply run that a controller records is that of the pod it read, and it is done.
  record_apply-cases :
      (inc : Incident) (r : Result) (by : Text)
      → let after = (record_apply inc r by).0.status.state in
        (after ≡ inc.status.state) ⊎ ((after ≡ State.verifying) × (exit_is r.exit 0 ≡ true))
  unfolding record_apply
  record_apply-cases inc r by = ground arith

  -- What explains a state goes on doing so.
  Explained-grows :
      (s : State) (spec : IncidentSpec) (specs : List IncidentSpec) (listed shown : List Pod)
      (ran : List Pod)
      → Explained s specs shown ran
      → Explained s (spec ∷ specs) (listed ++ shown) ran
  Explained-grows State.verifying spec specs listed shown ran (inl (t, i, a)) = inl (t, inr i, a)
  Explained-grows State.verifying spec specs listed shown ran (inr (inl (pod, i, e))) =
      inr (inl (pod, In-append_right pod listed shown i, e))
  Explained-grows State.verifying spec specs listed shown ran (inr (inr h)) = inr (inr h)
  Explained-grows State.resolved spec specs listed shown ran (pod, i, e) =
      (pod, In-append_right pod listed shown i, e)
  Explained-grows State.closed spec specs listed shown ran (t, i, c) = (t, inr i, c)
  Explained-grows _ spec specs listed shown ran h = tt

  Explained-ran :
      (s : State) (specs : List IncidentSpec) (shown ran : List Pod) (pod : Pod)
      → Explained s specs shown ran
      → Explained s specs shown (pod ∷ ran)
  Explained-ran State.verifying specs shown ran pod (inr (inr (q, i, e))) = inr (inr (q, inr i, e))
  Explained-ran State.verifying specs shown ran pod (inr (inl h)) = inr (inl h)
  Explained-ran State.verifying specs shown ran pod (inl h) = inl h
  Explained-ran State.resolved specs shown ran pod h = h
  Explained-ran State.closed specs shown ran pod h = h
  Explained-ran _ specs shown ran pod h = tt

  Reason-Explained :
      (s : State) (spec : IncidentSpec) (specs : List IncidentSpec) (listed shown ran : List Pod)
      → Reason cfg spec listed s
      → Explained s (spec ∷ specs) (listed ++ shown) ran
  Reason-Explained State.verifying spec specs listed shown ran (inl a) = inl (spec, inl refl, a)
  Reason-Explained State.verifying spec specs listed shown ran (inr (pod, i, e)) =
      inr (inl (pod, In-append_left pod listed shown i, e))
  Reason-Explained State.resolved spec specs listed shown ran (pod, i, e) =
      (pod, In-append_left pod listed shown i, e)
  Reason-Explained State.closed spec specs listed shown ran c = (spec, inl refl, c)
  Reason-Explained _ spec specs listed shown ran h = tt

  ⇒-Explained :
      {a b : State} (specs : List IncidentSpec) (shown ran : List Pod)
      → a ⇒ b
      → Explained b specs shown ran
  ⇒-Explained specs shown ran begins = tt
  ⇒-Explained specs shown ran ends = tt
  ⇒-Explained specs shown ran again_open = tt
  ⇒-Explained specs shown ran again_verifying = tt

  Step-IsExplained : (w v : World) → Step cfg pods api apply_cfg w v → IsExplained w → IsExplained v
  Step-IsExplained w v (check_written now runs listed srv new i s sp ch ran) h =
      let o = checked cfg pods api apply_cfg now runs listed w in
      let same : v.inc.status.state ≡ o.inc.status.state =
        ap (λ (t : IncidentStatus). t.state) s
        ∙ ap (λ (t : Incident). t.status.state)
            (update-status ⦃srv = srv⦄ o.inc pods o.plan new i) in
      rw (same, sp, ch, ran)
        (elim (observe_live-Reason cfg now w.inc runs listed) [
          | inl kept ↦ rw kept (Explained-grows _ w.inc.spec w.specs listed w.checks w.applies h)
          | inr reason ↦ Reason-Explained _ w.inc.spec w.specs listed w.checks w.applies reason
        ])
  Step-IsExplained w v (apply_written now answers ia pod srv new g i f s sp ch ran) h =
      let o = applied cfg pods api apply_cfg now answers ia in
      let (inc, r, got, run, e) = update_apply-status ⦃srv = srv⦄ o.plan o.ia new i in
      let by = o.ia.spec.requested_by.username in
      let (q, f', done) = (observe_apply-run api apply_cfg answers now ia r run).0 in
      let same : v.inc.status.state ≡ (record_apply w.inc r by).0.status.state =
        cc (s, e, got, g) in
      let read : result_of pod apply_cfg.timeout now ≡ (r, true) = cc (f, f', done) in
      rw (same, sp, ch, ran)
        (elim (record_apply-cases w.inc r by) [
          | inl kept ↦ rw kept (Explained-ran _ w.specs w.checks w.applies pod h)
          | inr (at, exit) ↦ rw at (inr (inr (pod, inl refl, (now, rw read (refl, exit)))))
        ])
  Step-IsExplained w v (spec_edited s (a, b, c)) h = rw (s, a, b, c) h
  Step-IsExplained w v (analysis_kept s since res (a, b, c)) h = rw (s, a, b, c) h
  Step-IsExplained w v (analysis_written e since res (a, b, c)) h =
      ⇒-Explained v.specs v.checks v.applies e

  -- However the two controllers, people and the writer take turns, and whatever the servers answer:
  -- if the state of an incident is explained at first, as that of a new one is, it stays so. A
  -- Resolved incident was shown a verify run that exited 0, a Closed one was asked to be closed, and
  -- a Verifying one was applied by a person, or its precondition or an apply run exited 0.
  pub Reach-IsExplained :
      (w v : World) → Reach cfg pods api apply_cfg w v → IsExplained w → IsExplained v
  Reach-IsExplained w v unchanged h = h
  Reach-IsExplained w v (next {v = x} r s) h = Step-IsExplained x v s (Reach-IsExplained w x r h)
