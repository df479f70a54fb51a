-- ===== src/Tests/Machines.antt =====
-- The theorems about the lifecycle, at inputs.
use incident_controller.Prelude.{
  ℕ_discrete, length, ◌⊎◌, ◌++◌, ◌≤◌, ℤ, Text, true, some, List, [], ◌∷◌, ◌≡◌, refl, arith, bytes,
}
use incident_controller.Api.Incident.{Incident, State, Script}
use incident_controller.Machine.Output.{Result, cut_output, max_output}
use incident_controller.Machine.Checks.{current_script, new_check}
use incident_controller.Machine.Verdicts.{record_result, record_apply}
use incident_controller.Machine.Moves.{record_result-state, record_apply-state}
use incident_controller.Machine.Repeats.{record_result_twice}
use incident_controller.Tests.Library.{exit_discrete, platform}
use incident_controller.Tests.Objects.{evaluation, cfg, at_second, verifying, opened, result}
use incident_controller.Machine.Streaks.{record_all-latest, record_all, latest, streak_start, Run}
use incident_controller.Machine.Cadence.{check_due}
use incident_controller.Machine.Runes.{IsRune, cut_output-encode, encode}

runs_verify : Script.verify ≡ current_script verifying
unfolding current_script bytes
runs_verify = refl

abbrev late_failure : Result
late_failure = result Script.verify (ℤ.pos 1) (at_second 400)

abbrev early_failure : Result
early_failure = result Script.verify (ℤ.pos 1) (at_second 100)

record_result-state_example :
    let after = record_result verifying cfg late_failure (at_second 401) in
    after.0.status.state ≡ State.open_state
record_result-state_example =
    record_result-state verifying cfg late_failure (at_second 401) runs_verify (λ e. cc)

abbrev after_early : Incident
after_early = (record_result verifying cfg early_failure (at_second 101)).0

still_verify : Script.verify ≡ current_script after_early
unfolding record_result current_script bytes
still_verify = refl

record_result_twice_example :
    record_result after_early cfg early_failure (at_second 102) ≡ (after_early, [])
record_result_twice_example =
    record_result_twice verifying cfg early_failure (at_second 101) (at_second 102) runs_verify
      (λ e. cc) (omega arith) still_verify

abbrev asked : Incident
asked = record opened { spec = record (opened.spec) { applied = true } }

record_apply-state_example :
    let after = record_apply opened (result Script.apply (ℤ.pos 0) (at_second 9)) (bytes "me") in
    after.0.status.state ≡ State.verifying
record_apply-state_example =
    record_apply-state opened (result Script.apply (ℤ.pos 0) (at_second 9)) (bytes "me")

abbrev euro : Text
euro = 0xe2 ∷ 0x82 ∷ 0xac ∷ []

is_rune : IsRune euro
is_rune = (refl, omega arith, (refl, (refl, tt)))

cut_output-encode_example :
    (kept : List Text) × (rest : List Text) × (euro ∷ euro ∷ [] ≡ kept ++ rest)
    × (cut_output (encode (euro ∷ euro ∷ [])) ≡ encode kept)
    × (length (encode kept) ≤ max_output)
    × ((rest ≡ []) ⊎ (509 ≤ length (encode kept)))
cut_output-encode_example = cut_output-encode (euro ∷ euro ∷ []) (is_rune, (is_rune, tt))

abbrev first_run : Run
first_run = record { exit = some (ℤ.pos 1); output = []; at = at_second 10 }

abbrev second_run : Run
second_run = record { exit = some (ℤ.pos 1); output = []; at = at_second 70 }

record_all-latest_example :
    latest (record_all verifying Script.verify (second_run ∷ first_run ∷ [])) Script.verify
    ≡ some (new_check Script.verify (some (ℤ.pos 1)) [] (at_second 10))
unfolding streak_start evaluation exit_discrete ℕ_discrete
record_all-latest_example =
    record_all-latest verifying Script.verify second_run (first_run ∷ []) refl refl

due_at : check_due verifying cfg (at_second 100) (at_second 160) ≡ true
unfolding check_due current_script bytes
due_at = refl
