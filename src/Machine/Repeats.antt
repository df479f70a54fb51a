-- ===== src/Machine/Repeats.antt =====
-- machine.go: what a result does not move, and that a result recorded again changes nothing.
use incident_controller.Prelude.{refl, ℤ, ◌≤◌, Text, false, Option, List, [], ◌≡◌, ◌≢◌, arith}
use incident_controller.Api.Meta.{Condition, condition_false, Time, second, condition_true}
use incident_controller.Api.Incident.{Incident, Script}
use incident_controller.Platform.{Platform}
use incident_controller.Machine.Output.{Config, Result, known}
use incident_controller.Machine.Checks.{flagged, current_script, set_last_check, type_reproduced}
use incident_controller.Machine.Verdicts.{
  record_apply, passed_condition, holds_condition, record_result,
}

module _ ⦃p : Platform⦄ where
  -- A result that is no verdict moves nothing but the latest check of its script.
  pub record_result_unknown :
      (inc : Incident) (cfg : Config) (r : Result) (now : Time)
      → known r.exit ≡ false
      → record_result inc cfg r now ≡ (set_last_check inc r.script r.exit r.output r.at, [])
  unfolding record_result
  record_result_unknown inc cfg r now h = ground arith

  -- The condition that the first precondition run leaves.
  pub holds-reproduced :
      (cs : List Condition) (now : Time)
      → p.get_condition (p.set_conditions cs (holds_condition now)) type_reproduced ≡ condition_true
  unfolding holds_condition
  holds-reproduced cs now = p.get-set_conditions_self cs (holds_condition now)

  pub passed-reproduced :
      (cs : List Condition) (now : Time)
      → p.get_condition (p.set_conditions cs (passed_condition now)) type_reproduced
        ≡ condition_false
  unfolding passed_condition
  passed-reproduced cs now = p.get-set_conditions_self cs (passed_condition now)

  set_last_check_twice :
      (inc : Incident) (s : Script) (exit : Option ℤ) (output : Text) (at : Time)
      → set_last_check (set_last_check inc s exit output at) s exit output at
        ≡ set_last_check inc s exit output at
  unfolding set_last_check
  set_last_check_twice inc s exit output at = ground (arith, p.ptr_equal_iff exit exit)

  -- Where a run of the current script leaves that script current, and the settle window is a
  -- second at least, recording the same run again changes nothing and announces nothing.
  pub record_result_twice :
      (inc : Incident) (cfg : Config) (r : Result) (now later : Time)
      → r.script ≡ current_script inc
      → r.script ≢ Script.unset
      → second ≤ cfg.settle_window
      → let after = (record_result inc cfg r now).0 in
        r.script ≡ current_script after → record_result after cfg r later ≡ (after, [])
  unfolding record_result current_script flagged
  record_result_twice inc cfg r now later h k w h' = ground (
    arith,
    p.ptr_equal_iff r.exit r.exit,
    p.rfc3339_copy_within r.at,
    holds-reproduced inc.status.conditions now,
    passed-reproduced inc.status.conditions now,
  )

  -- Recording an apply run again, whoever is said to have run it, changes nothing on its incident
  -- and announces nothing: an Update that is tried again records a run once.
  pub record_apply_twice :
      (inc : Incident) (r : Result) (by other_user : Text)
      → let after = (record_apply inc r by).0 in
        record_apply after r other_user ≡ (after, [], false)
  unfolding record_apply
  record_apply_twice inc r by other_user = ground (
    arith,
    p.ptr_equal_iff r.exit r.exit,
    (p.deep_equal_iff (record_apply inc r by).0.status (record_apply inc r by).0.status).1 refl,
  )
