-- ===== src/CheckPod/Runs.antt =====
-- checkpod.go: what resultOf reads.
use incident_controller.Prelude.{
  ◌↔◌, ◌∙◌, ◌≤◌, ℤ, within, Bool, true, false, Option, none, some, List, [], ◌∷◌, ◌≡◌, ◌⊎◌, refl,
  arith,
}
use incident_controller.Api.Meta.{Time, Duration}
use incident_controller.Api.Pod.{Pod, ContainerStatus}
use incident_controller.Platform.{Platform}
use incident_controller.Machine.Output.{Result}
use incident_controller.CheckPod.ResultOf.{
  before_containers, result_of, is_finished, overdue, read_statuses, deadline_exceeded,
  script_label,
}

abbrev pub in_range : Option ℤ → Bool
in_range none = true
in_range (some z) = within z 255

read_statuses-in_range :
    (stopped : Bool) (cs : List ContainerStatus) (r : Result)
    → in_range r.exit ≡ true
    → in_range (read_statuses stopped cs r).exit ≡ true
unfolding read_statuses
read_statuses-in_range stopped [] r h = h
read_statuses-in_range stopped (c ∷ cs) r h = read_statuses-in_range stopped cs _ (ground arith)

read_statuses-stopped :
    (cs : List ContainerStatus) (r : Result) → r.exit ≡ none → (read_statuses true cs r).exit ≡ none
unfolding read_statuses
read_statuses-stopped [] r h = h
read_statuses-stopped (c ∷ cs) r h = read_statuses-stopped cs _ (ground arith)

read_statuses-script :
    (stopped : Bool) (cs : List ContainerStatus) (r : Result)
    → (read_statuses stopped cs r).script ≡ r.script
unfolding read_statuses
read_statuses-script stopped [] r = refl
read_statuses-script stopped (c ∷ cs) r = read_statuses-script stopped cs _ ∙ ground arith

module _ ⦃p : Platform⦄ where
  -- An exit code of a result is one that a process can have, 0 to 255.
  pub result_of-in_range :
      (pod : Pod) (timeout : Duration) (now : Time)
      → in_range (result_of pod timeout now).0.exit ≡ true
  unfolding result_of
  result_of-in_range pod timeout now = ground (
    arith,
    read_statuses-in_range (deadline_exceeded pod) pod.status.container_statuses
        (before_containers pod timeout),
  )

  -- A pod that has not finished, or that met its deadline, gives no exit code.
  pub result_of-no_exit :
      (pod : Pod) (timeout : Duration) (now : Time)
      → (is_finished pod.status.phase ≡ false) ⊎ (deadline_exceeded pod ≡ true)
      → (result_of pod timeout now).0.exit ≡ none
  unfolding result_of
  result_of-no_exit pod timeout now h =
      ground
        (arith, read_statuses-stopped pod.status.container_statuses (before_containers pod timeout))

  pub result_of-script :
      (pod : Pod) (timeout : Duration) (now : Time)
      → (result_of pod timeout now).0.script ≡ script_label pod
  unfolding result_of
  result_of-script pod timeout now = ground (
    arith,
    read_statuses-script (deadline_exceeded pod) pod.status.container_statuses
        (before_containers pod timeout),
  )

  -- A run is done exactly when its pod has finished or is overdue.
  pub result_of-done :
      (pod : Pod) (timeout : Duration) (now : Time)
      → ((result_of pod timeout now).1 ≡ true)
        ↔ ((is_finished pod.status.phase ≡ true) ⊎ (overdue pod timeout ≤ now))
  unfolding result_of
  result_of-done pod timeout now = ground arith

  -- A result, once there, does not depend on when it is read.
  pub result_of-stable :
      (pod : Pod) (timeout : Duration) (now later : Time)
      → (result_of pod timeout now).1 ≡ true
      → now ≤ later
      → result_of pod timeout later ≡ result_of pod timeout now
  unfolding result_of
  result_of-stable pod timeout now later h k = ground arith
