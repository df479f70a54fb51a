-- ===== src/Machine/Moves.antt =====
-- machine.go: which state each operation leaves, and what it announces.
use incident_controller.Prelude.{
  Bool-cases, ℤ, ◌+◌, Text, Bool, true, false, ◌&&◌, Option, none, some, ◌≡◌, ◌≢◌, refl, ◌⊎◌, inl,
  inr, arith, leb, if◌then◌else◌,
}
use incident_controller.Api.Meta.{Time, Duration}
use incident_controller.Api.Incident.{Incident, State, Script}
use incident_controller.Platform.{Platform}
use incident_controller.Machine.Output.{Config, Result}
use incident_controller.Machine.Checks.{current_script, reproduced}
use incident_controller.Machine.Transitions.{apply_spec}
use incident_controller.Machine.Verdicts.{record_result, record_apply, exit_is}

-- The edges of the lifecycle.
infix 40 ◌⟶◌ ◌⟶*◌
pub data ◌⟶◌ : State → State → Type 0 where
  fix_applied : State.open_state ⟶ State.verifying
  verified : State.verifying ⟶ State.resolved
  not_fixed : State.verifying ⟶ State.open_state
  closed_by_user : {s : State} → s ⟶ State.closed

pub data ◌⟶*◌ : State → State → Type 0 where
  here : {s : State} → s ⟶* s
  then_to : {s t u : State} → s ⟶ t → t ⟶* u → s ⟶* u

pub ⟶*-refl : (s : State) → s ⟶* s
⟶*-refl s = here

pub ⟶*-trans : {s t u : State} → s ⟶* t → t ⟶* u → s ⟶* u
⟶*-trans here k = k
⟶*-trans (then_to e h) k = then_to e (⟶*-trans h k)

-- The state that the human decisions in spec lead to.
abbrev pub decided : Bool → Bool → State → State
decided true applied s = State.closed
decided false true State.open_state = State.verifying
decided false applied s = s

abbrev window_over : Option Time → Duration → Time → Bool
window_over none window at = false
window_over (some since) window at = leb (since + window) at

-- The state that a finished run of the current script leads to, by its exit code: 0 says that the
-- incident is gone, 1 that it holds, anything else nothing.
abbrev pub judged : State → Bool → Option Time → Duration → Option ℤ → Time → State
judged State.open_state reproduced since window exit at =
    if reproduced && exit_is exit 0 then State.verifying else State.open_state
judged State.verifying reproduced since window exit at =
    if exit_is exit 0
    then State.resolved
    else if exit_is exit 1 && window_over since window at
    then State.open_state
    else State.verifying
judged s reproduced since window exit at = s

-- The state that a finished apply run leads to.
abbrev pub applied_by_run : State → Option ℤ → State
applied_by_run State.open_state exit = if exit_is exit 0 then State.verifying else State.open_state
applied_by_run s exit = s

decided-⟶* : (closed applied : Bool) (s : State) → s ⟶* decided closed applied s
decided-⟶* true applied s = then_to closed_by_user here
decided-⟶* false true State.open_state = then_to fix_applied here
decided-⟶* false true State.unset = here
decided-⟶* false true _ = here
decided-⟶* false false _ = here

judged-⟶* :
    (s : State) (reproduced : Bool) (since : Option Time) (window : Duration) (exit : Option ℤ)
    (at : Time)
    → s ⟶* judged s reproduced since window exit at
judged-⟶* State.open_state reproduced since window exit at =
    elim (Bool-cases (reproduced && exit_is exit 0)) [
      | inl e ↦ rw e (then_to fix_applied here)
      | inr e ↦ rw e here
    ]
judged-⟶* State.verifying reproduced since window exit at = elim (Bool-cases (exit_is exit 0)) [
  | inl e ↦ rw e (then_to verified here)
  | inr e ↦ rw e (elim (Bool-cases (exit_is exit 1 && window_over since window at)) [
    | inl f ↦ rw f (then_to not_fixed here)
    | inr f ↦ rw f here
  ])
]
judged-⟶* State.unset reproduced since window exit at = here
judged-⟶* _ reproduced since window exit at = here

applied_by_run-⟶* : (s : State) (exit : Option ℤ) → s ⟶* applied_by_run s exit
applied_by_run-⟶* State.open_state exit = elim (Bool-cases (exit_is exit 0)) [
  | inl e ↦ rw e (then_to fix_applied here)
  | inr e ↦ rw e here
]
applied_by_run-⟶* State.unset exit = here
applied_by_run-⟶* _ exit = here

unset_or_not : (s : Script) → (s ≡ Script.unset) ⊎ (s ≢ Script.unset)
unset_or_not Script.unset = inl refl
unset_or_not Script.precondition = inr (λ e. cc)
unset_or_not _ = inr (λ e. cc)

module _ ⦃p : Platform⦄ where
  -- applySpec leads to the state that the decisions in spec ask for.
  pub apply_spec-state :
      (inc : Incident) (now : Time)
      → (apply_spec inc now).0.status.state
        ≡ decided inc.spec.closed inc.spec.applied inc.status.state
  unfolding apply_spec
  apply_spec-state inc now = ground arith

  -- A finished run of the current script leads to the state that its exit code asks for.
  pub record_result-state :
      (inc : Incident) (cfg : Config) (r : Result) (now : Time)
      → r.script ≡ current_script inc
      → r.script ≢ Script.unset
      → (record_result inc cfg r now).0.status.state
        ≡ judged inc.status.state
            (reproduced inc)
            inc.status.verifying_since
            cfg.settle_window
            r.exit
            r.at
  unfolding record_result current_script
  record_result-state inc cfg r now h k = ground arith

  -- A run under the empty script, which only a pod with no script label has, moves nothing.
  record_result-unset :
      (inc : Incident) (cfg : Config) (r : Result) (now : Time)
      → r.script ≡ Script.unset
      → (record_result inc cfg r now).0.status.state ≡ inc.status.state
  unfolding record_result
  record_result-unset inc cfg r now h = ground arith

  -- A finished apply run moves an Open incident to Verifying when it exited 0, and no other.
  pub record_apply-state :
      (inc : Incident) (r : Result) (by : Text)
      → (record_apply inc r by).0.status.state ≡ applied_by_run inc.status.state r.exit
  unfolding record_apply
  record_apply-state inc r by = ground arith

  -- Each of them moves along the edges of the lifecycle.
  pub apply_spec-⟶* :
      (inc : Incident) (now : Time) → inc.status.state ⟶* (apply_spec inc now).0.status.state
  apply_spec-⟶* inc now = rw (apply_spec-state inc now) (decided-⟶* _ _ _)

  pub record_result-⟶* :
      (inc : Incident) (cfg : Config) (r : Result) (now : Time)
      → r.script ≡ current_script inc
      → inc.status.state ⟶* (record_result inc cfg r now).0.status.state
  record_result-⟶* inc cfg r now h = elim (unset_or_not r.script) [
    | inl e ↦ rw (record_result-unset inc cfg r now e) here
    | inr e ↦ rw (record_result-state inc cfg r now h e) (judged-⟶* _ _ _ _ _ _)
  ]

  pub record_apply-⟶* :
      (inc : Incident) (r : Result) (by : Text)
      → inc.status.state ⟶* (record_apply inc r by).0.status.state
  record_apply-⟶* inc r by = rw (record_apply-state inc r by) (applied_by_run-⟶* _ _)
