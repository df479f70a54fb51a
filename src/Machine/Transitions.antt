-- ===== src/Machine/Transitions.antt =====
-- machine.go: the state changes of an Incident, and those that the human decisions in
-- its spec make.
use incident_controller.Prelude.{
  Text, Bool, true, false, not, ◌++◌, Option, none, some, List, [], ◌∷◌, bytes, if◌then◌else◌,
}
use incident_controller.Api.Meta.{Time}
use incident_controller.Api.Incident.{Incident, ResolvedBy, State, Script}
use incident_controller.Platform.{Platform}
use incident_controller.Machine.Checks.{with_status, set_last_check, clear_last_check}

pub record Change : Type 0 where
  pub reason : Text
  pub message : Text

unfoldable pub state_text : State → Text
unfolding bytes
state_text State.unset = []
state_text State.analyzing = bytes "Analyzing"
state_text State.open_state = bytes "Open"
state_text State.verifying = bytes "Verifying"
state_text State.resolved = bytes "Resolved"
state_text State.closed = bytes "Closed"

-- `if from == "" { from = "none" }`
abbrev from_text : State → Text
from_text State.unset = bytes "none"
from_text s = state_text s

abbrev pub with_resolution : Incident → ResolvedBy → Time → Incident
with_resolution inc by at =
    with_status inc (record (inc.status) { resolution = some (record { by = by; at = at }) })

abbrev pub with_state : Incident → State → Incident
with_state inc to = with_status inc (record (inc.status) { state = to })

abbrev pub with_window : Incident → Option Time → Incident
with_window inc since = with_status inc (record (inc.status) { verifying_since = since })

abbrev pub is_verifying : State → Bool
is_verifying State.verifying = true
is_verifying _ = false

module _ ⦃p : Platform⦄ where
  unfoldable pub enter_verifying : Incident → Time → Incident
  unfolding clear_last_check
  enter_verifying inc at =
      clear_last_check (with_window inc (some (p.rfc3339_copy at))) Script.verify

  -- The `switch` of setState.
  on_entry : State → Incident → Time → Incident
  unfolding enter_verifying clear_last_check
  on_entry State.verifying inc at = enter_verifying inc at
  on_entry State.open_state inc at = clear_last_check inc Script.precondition
  on_entry _ inc at = inc

  state_change : State → State → Text → Change
  state_change from to why = record {
    reason = bytes "StateChanged";
    message = from_text from ++ (bytes " -> " ++ (state_text to ++ (bytes ": " ++ why)));
  }

  unfoldable pub set_state : Incident → State → Text → Time → Incident × Change
  unfolding on_entry state_change
  set_state inc to why at =
      let entered = on_entry to (with_state inc to) at in
      (
        if is_verifying to then entered else with_window entered none,
        state_change inc.status.state to why,
      )

  close : Incident → Time → Incident × List Change × Bool
  unfolding set_state
  close inc now =
      let (closed, c) = set_state inc State.closed (bytes "spec.closed") now in
      (with_resolution closed ResolvedBy.user (p.rfc3339_copy now), c ∷ [], false)

  -- spec.applied, by the state it finds.
  apply_in : State → Incident → Time → Incident × List Change × Bool
  unfolding set_state
  apply_in State.open_state inc now =
      let recorded = set_last_check inc Script.apply none [] now in
      let (moved, c) = set_state recorded State.verifying (bytes "spec.applied") now in
      (moved, c ∷ [], true)
  apply_in State.verifying inc now =
      (enter_verifying (set_last_check inc Script.apply none [] now) now, [], true)
  apply_in _ inc now = (inc, [], false)

  close_in : State → Incident → Time → Incident × List Change × Bool
  unfolding close
  close_in State.closed inc now = (inc, [], false)
  close_in _ inc now = close inc now

  -- The changes, and whether spec.applied was acted on and must be set back to false.
  unfoldable pub apply_spec : Incident → Time → Incident × List Change × Bool
  unfolding close_in apply_in set_last_check
  apply_spec inc now =
      if inc.spec.closed
      then close_in inc.status.state inc now
      else if not inc.spec.applied
      then (inc, [], false)
      else apply_in inc.status.state inc now
