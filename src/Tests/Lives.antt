-- ===== src/Tests/Lives.antt =====
-- The theorems about the life of an Incident, at inputs.
use incident_controller.Prelude.{ℤ, ◌≡◌, refl, true, List, [], ◌∷◌, inl, inr, In, ℕ_discrete}
use incident_controller.Api.Incident.{State}
use incident_controller.Api.Pod.{Pod}
use incident_controller.Server.{update_status}
use incident_controller.Machine.Lifecycle.{IsWellFormed}
use incident_controller.Incident.LastRuns.{new_last_runs}
use incident_controller.Incident.Observe.{Reconcile, observe_live}
use incident_controller.Incident.Update.{
  announce_all, create_or_read, persist_status, start_check, delete_pods, reset_applied, persist,
  update,
}
use incident_controller.Machine.Transitions.{state_text}
use incident_controller.Machine.Cadence.{next_check_at}
use incident_controller.Life.World.{World, Reach, check_written, spec_edited, unchanged, next}
use incident_controller.Life.Explained.{IsExplained, Reach-IsExplained}
use incident_controller.Life.Lasting.{Reach-IsWellFormed, Reach-IsFinalFrom, IsFinalFrom}
use incident_controller.Tests.Library.{platform, server, truncated, status_discrete, set_conditions}
use incident_controller.Tests.Objects.{evaluation, cfg, at_second, opened, exited, check_pods}
use incident_controller.Tests.Requests.{cluster, libraries}
use incident_controller.Tests.Applies.{apply_cfg}

-- An Open incident that a person says to have fixed.
abbrev applied_world : World
applied_world = record {
  inc = record opened { spec = record (opened.spec) { applied = true } };
  specs = [];
  checks = [];
  applies = [];
}

abbrev applying : Reconcile
applying = observe_live cfg (at_second 10) applied_world.inc new_last_runs []

abbrev verifying_world : World
verifying_world = record {
  inc = record opened { status = applying.inc.status };
  specs = applied_world.inc.spec ∷ [];
  checks = [];
  applies = [];
}

-- Its verify script exits 0.
abbrev passed : List Pod
passed = exited (ℤ.pos 0) (at_second 60) ∷ []

abbrev resolving : Reconcile
resolving = observe_live cfg (at_second 70) verifying_world.inc new_last_runs passed

abbrev resolved_world : World
resolved_world = record {
  inc = record opened { status = resolving.inc.status };
  specs = verifying_world.inc.spec ∷ applied_world.inc.spec ∷ [];
  checks = passed;
  applies = [];
}

applies_written :
    In (update_status applying.inc) (update check_pods applying.plan applying.inc []).1
unfolding evaluation observe_live update persist reset_applied delete_pods start_check
    persist_status create_or_read announce_all next_check_at truncated new_last_runs state_text
applies_written = inr (inr (inl refl))

resolves_written :
    In (update_status resolving.inc) (update check_pods resolving.plan resolving.inc []).1
unfolding evaluation observe_live update persist reset_applied delete_pods start_check
    persist_status create_or_read announce_all next_check_at truncated new_last_runs state_text
    status_discrete set_conditions ℕ_discrete
resolves_written = inr (inr (inl refl))

one_step : Reach cfg check_pods cluster apply_cfg applied_world verifying_world
one_step = next unchanged (
    check_written (at_second 10) new_last_runs [] server applying.inc applies_written refl refl refl
      refl)

resolves : Reach cfg check_pods cluster apply_cfg applied_world resolved_world
resolves = next one_step (
    check_written (at_second 70) new_last_runs passed server resolving.inc resolves_written refl
      refl refl refl)

is_resolved : resolved_world.inc.status.state ≡ State.resolved
unfolding evaluation observe_live next_check_at truncated new_last_runs
is_resolved = refl

Reach-IsExplained_example : IsExplained cfg check_pods cluster apply_cfg resolved_world
Reach-IsExplained_example =
    Reach-IsExplained cfg check_pods cluster apply_cfg applied_world resolved_world resolves tt

Reach-IsWellFormed_example : IsWellFormed resolved_world.inc.status
Reach-IsWellFormed_example =
    Reach-IsWellFormed cfg check_pods cluster apply_cfg applied_world resolved_world resolves
      (record { window = refl; ended = refl })

-- A person closes it.
abbrev asked_world : World
asked_world = record resolved_world {
  inc = record (resolved_world.inc) { spec = record (opened.spec) { closed = true } };
}

abbrev closing : Reconcile
closing = observe_live cfg (at_second 90) asked_world.inc new_last_runs []

abbrev closed_world : World
closed_world = record {
  inc = record opened { status = closing.inc.status };
  specs = asked_world.inc.spec ∷ asked_world.specs;
  checks = passed;
  applies = [];
}

closes_written : In (update_status closing.inc) (update check_pods closing.plan closing.inc []).1
unfolding evaluation observe_live update persist reset_applied delete_pods start_check
    persist_status create_or_read announce_all next_check_at truncated new_last_runs state_text
    status_discrete set_conditions ℕ_discrete
closes_written = inr (inl refl)

closes : Reach cfg check_pods cluster apply_cfg resolved_world closed_world
closes =
    next
      (next {v = resolved_world} {u = asked_world} unchanged (spec_edited refl (refl, refl, refl)))
      (check_written (at_second 90) new_last_runs [] server closing.inc closes_written refl refl
        refl refl)

Reach-IsFinalFrom_example :
    IsFinalFrom resolved_world.inc.status.state closed_world.inc.status.state
Reach-IsFinalFrom_example =
    Reach-IsFinalFrom cfg check_pods cluster apply_cfg resolved_world closed_world closes
