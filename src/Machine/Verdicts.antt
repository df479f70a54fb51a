-- ===== src/Machine/Verdicts.antt =====
-- machine.go: the state changes of an Incident by a finished check, and by a finished run of its
-- apply script.
use incident_controller.Prelude.{
  ℤ, equals, Text, Bool, true, false, not, ◌&&◌, ℕ, ◌+◌, ◌++◌, Option, none, some, List, [], ◌∷◌,
  bytes, ltb, leb, if◌then◌else◌,
}
use incident_controller.Api.Meta.{Time, Condition, ConditionStatus, condition_true, condition_false}
use incident_controller.Api.Incident.{Incident, ResolvedBy, State, Script}
use incident_controller.Platform.{Platform}
use incident_controller.Machine.Output.{Config, Result, known}
use incident_controller.Machine.Checks.{type_reproduced, with_status, reproduced, set_last_check}
use incident_controller.Machine.Transitions.{
  Change, set_state, enter_verifying, with_resolution, with_window,
}

-- `[]change{c}`, behind the incident that changed.
abbrev announced : Incident × Change → Incident × List Change
announced (inc, c) = (inc, c ∷ [])

-- `exit != nil && *exit == n`
abbrev pub exit_is : Option ℤ → ℕ → Bool
exit_is none n = false
exit_is (some z) n = equals z n

abbrev pub records_runs : State → Bool
records_runs State.open_state = true
records_runs State.verifying = true
records_runs _ = false

module _ ⦃p : Platform⦄ where
  abbrev with_condition : Incident → Condition → Incident
  with_condition inc c =
      with_status inc
        (record (inc.status) { conditions = p.set_conditions inc.status.conditions c })

  abbrev pub reproduced_condition : ConditionStatus → Text → Text → Time → Condition
  reproduced_condition s reason msg now = record {
    kind = type_reproduced;
    status = s;
    reason = reason;
    message = msg;
    last_transition_time = p.rfc3339_copy now;
  }

  abbrev flagged_change : Change
  flagged_change = record {
    reason = bytes "Flagged";
    message =
        bytes
          "the first precondition run exited 0; only spec.applied or spec.closed moves this incident";
  }

  unfoldable pub holds_condition : Time → Condition
  holds_condition now =
      reproduced_condition condition_true (bytes "PreconditionHolds")
        (bytes "the first precondition run exited 1") now

  unfoldable pub passed_condition : Time → Condition
  passed_condition now =
      reproduced_condition condition_false (bytes "PreconditionPassed")
        (bytes
          "the first precondition run exited 0: it cannot see the incident, so it no longer runs")
        now

  -- A verdict of the precondition, by whether the incident holds.
  precondition_verdict : Incident → Result → Bool → Time → Incident × List Change
  unfolding set_state reproduced
  precondition_verdict inc r holds now =
      if not (reproduced inc)
      then if holds
        then (with_condition inc (holds_condition now), [])
        else (with_condition inc (passed_condition now), flagged_change ∷ [])
      else if not holds
      then announced (set_state inc State.verifying (bytes "precondition exited 0") r.at)
      else (inc, [])

  -- A verify exit 1, by the window it finds. `r.at.Sub(since) >= window` with `since` moved over.
  verify_holds : Incident → Config → Result → Option Time → Incident × List Change
  unfolding set_state
  verify_holds inc cfg r none = (with_window inc (some (p.rfc3339_copy r.at)), [])
  verify_holds inc cfg r (some since) =
      if leb (since + cfg.settle_window) r.at
      then announced
          (set_state inc State.open_state (bytes "verify exited 1 after the settle window") r.at)
      else (inc, [])

  verify_verdict : Incident → Config → Result → Bool → Incident × List Change
  unfolding verify_holds
  verify_verdict inc cfg r holds =
      let ended = with_resolution inc ResolvedBy.verify (p.rfc3339_copy r.at) in
      let resolved = set_state ended State.resolved (bytes "verify exited 0") r.at in
      if not holds then announced resolved else verify_holds inc cfg r inc.status.verifying_since

  verdict : Script → Incident → Config → Result → Time → Incident × List Change
  unfolding precondition_verdict verify_verdict
  verdict Script.precondition inc cfg r now = precondition_verdict inc r (exit_is r.exit 1) now
  verdict Script.verify inc cfg r now = verify_verdict inc cfg r (exit_is r.exit 1)
  verdict _ inc cfg r now = (inc, [])

  -- `record`: set a finished run as the latest result, and apply its transition.
  unfoldable pub record_result : Incident → Config → Result → Time → Incident × List Change
  unfolding verdict known set_last_check
  record_result inc cfg r now =
      let noted = set_last_check inc r.script r.exit r.output r.at in
      if not (known r.exit) then (noted, []) else verdict r.script noted cfg r now

  -- `v == nil || v.Before(Rfc3339Copy(at))`
  abbrev window_before : Option Time → Time → Bool
  window_before none at = true
  window_before (some v) at = ltb v at

  record_apply_in : State → Incident → Result → Text → Incident × List Change
  unfolding set_state set_last_check
  record_apply_in State.open_state inc r by =
      let noted = set_last_check inc Script.apply r.exit [] r.at in
      let why = bytes "apply exited 0, run by " ++ by in
      if exit_is r.exit 0 then announced (set_state noted State.verifying why r.at) else (noted, [])
  record_apply_in State.verifying inc r by =
      let noted = set_last_check inc Script.apply r.exit [] r.at in
      if exit_is r.exit 0 && window_before noted.status.verifying_since (p.rfc3339_copy r.at)
      then (enter_verifying noted r.at, [])
      else (noted, [])
  record_apply_in _ inc r by = (inc, [])

  -- The changes, and whether the incident changed.
  unfoldable pub record_apply : Incident → Result → Text → Incident × List Change × Bool
  unfolding record_apply_in
  record_apply inc r by =
      let (after, changes) = record_apply_in inc.status.state inc r by in
      if records_runs inc.status.state
      then (after, changes, not (p.deep_equal inc.status after.status))
      else (inc, [], false)
