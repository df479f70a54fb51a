-- ===== src/Machine/Checks.antt =====
-- machine.go: which script an incident runs, and the latest result of each script.
use incident_controller.Prelude.{
  ℤ, Text, Bool, true, false, not, ◌&&◌, Option, none, some, [], bytes, is_empty, if◌then◌else◌,
}
use incident_controller.Api.Meta.{Time, is_condition_false, is_condition_unknown}
use incident_controller.Api.Incident.{
  Incident, IncidentStatus, HowToFix, LastCheck, LastChecks, State, Script,
}
use incident_controller.Platform.{Platform}
use incident_controller.Machine.Output.{output_of}

unfoldable pub type_reproduced : Text
unfolding bytes
type_reproduced = bytes "Reproduced"

abbrev pub with_status : Incident → IncidentStatus → Incident
with_status inc s = record inc { status = s }

module _ ⦃p : Platform⦄ where
  -- The first precondition run exited 0.
  unfoldable pub flagged : Incident → Bool
  flagged inc = is_condition_false (p.get_condition inc.status.conditions type_reproduced)

  -- The first precondition run has a verdict.
  unfoldable pub reproduced : Incident → Bool
  reproduced inc =
      not (is_condition_unknown (p.get_condition inc.status.conditions type_reproduced))

  script_in_state : State → HowToFix → Bool → Script
  script_in_state State.open_state h flag =
      if not (is_empty h.precondition) && not flag then Script.precondition else Script.unset
  script_in_state State.verifying h flag =
      if not (is_empty h.verify) then Script.verify else Script.unset
  script_in_state _ h flag = Script.unset

  unfoldable pub current_script : Incident → Script
  unfolding script_in_state
  current_script inc = elim inc.status.how_to_fix [
    | none ↦ Script.unset
    | some h ↦ script_in_state inc.status.state h (flagged inc)
  ]

abbrev body_in : HowToFix → Script → Text
body_in h Script.precondition = h.precondition
body_in h Script.verify = h.verify
body_in h _ = []

unfoldable pub script_body : Incident → Script → Text
script_body inc s = elim inc.status.how_to_fix [ none ↦ [] | some h ↦ body_in h s ]

-- `slot`, read through and written through.
abbrev pub slot : LastChecks → Script → Option LastCheck
slot lc Script.precondition = lc.precondition
slot lc Script.apply = lc.apply
slot lc _ = lc.verify

abbrev pub set_slot : LastChecks → Script → Option LastCheck → LastChecks
set_slot lc Script.precondition c = record lc { precondition = c }
set_slot lc Script.apply c = record lc { apply = c }
set_slot lc _ c = record lc { verify = c }

abbrev pub is_apply : Script → Bool
is_apply Script.apply = true
is_apply _ = false

abbrev pub no_checks : LastChecks
no_checks = record { precondition = none; apply = none; verify = none }

abbrev pub checks_of : Option LastChecks → LastChecks
checks_of none = no_checks
checks_of (some lc) = lc

module _ ⦃p : Platform⦄ where
  -- `s != ScriptApply && *p != nil && ptr.Equal((*p).Exit, exit)`
  unfoldable pub same_result : Option LastCheck → Script → Option ℤ → Bool
  same_result none s exit = false
  same_result (some c) s exit = not (is_apply s) && p.ptr_equal c.exit exit

  unfoldable pub new_check : Script → Option ℤ → Text → Time → LastCheck
  new_check s exit output at = record {
    exit = exit;
    since = p.rfc3339_copy at;
    output = if not (is_apply s) then output_of exit output else [];
  }

  unfoldable pub set_last_check : Incident → Script → Option ℤ → Text → Time → Incident
  unfolding same_result new_check
  set_last_check inc s exit output at =
      let lc = checks_of inc.status.last_checks in
      let kept =
        if same_result (slot lc s) s exit
        then lc
        else set_slot lc s (some (new_check s exit output at)) in
      with_status inc (record (inc.status) { last_checks = some kept })

unfoldable pub clear_last_check : Incident → Script → Incident
clear_last_check inc s = elim inc.status.last_checks [
  | none ↦ inc
  | some lc ↦ with_status inc (record (inc.status) { last_checks = some (set_slot lc s none) })
]
