-- ===== src/CheckPod/ResultOf.antt =====
-- checkpod.go: resultOf, which reads the run of a script from its pod.
use incident_controller.Prelude.{
  ◌+◌, ◌++◌, within, Text, Bool, true, false, not, ◌&&◌, Option, none, some, List, [], ◌∷◌, bytes,
  text_eq, ltb, ◌==◌, if◌then◌else◌,
}
use incident_controller.Api.Meta.{Time, Duration, value_at}
use incident_controller.Api.Incident.{Script}
use incident_controller.Api.Pod.{Pod, PodPhase, ContainerStatus, ContainerStateTerminated}
use incident_controller.Platform.{Platform}
use incident_controller.Machine.Output.{Result, pending_grace}
use incident_controller.CheckPod.Names.{label_script, container_name}

-- `Script(label)`.
unfoldable pub script_of : Text → Script
unfolding bytes
script_of s =
    if text_eq s (bytes "precondition")
    then Script.precondition
    else if text_eq s (bytes "apply")
    then Script.apply
    else if text_eq s (bytes "verify")
    then Script.verify
    else if text_eq s []
    then Script.unset
    else Script.other s

abbrev pub is_finished : PodPhase → Bool
is_finished PodPhase.succeeded = true
is_finished PodPhase.failed = true
is_finished _ = false

unfoldable pub deadline_exceeded : Pod → Bool
unfolding bytes
deadline_exceeded pod = text_eq pod.status.reason (bytes "DeadlineExceeded")

-- The round of the loop for a terminated check container: its end, unless that is the zero time,
-- and its exit code and message, unless the pod met its deadline or the code is out of range.
read_terminated : Bool → ContainerStateTerminated → Result → Result
read_terminated stopped t r =
    let timed = if t.finished_at == 0 then r else record r { at = t.finished_at } in
    if not stopped && within t.exit_code 255
    then record timed { exit = some t.exit_code; output = t.message }
    else timed

read_status : Bool → ContainerStatus → Result → Result
unfolding read_terminated
read_status stopped cs r = elim cs.terminated [
  | none ↦ r
  | some t ↦ if text_eq cs.name container_name then read_terminated stopped t r else r
]

unfoldable pub read_statuses : Bool → List ContainerStatus → Result → Result
unfolding read_status
read_statuses stopped [] r = r
read_statuses stopped (cs ∷ rest) r = read_statuses stopped rest (read_status stopped cs r)

unfoldable pub overdue : Pod → Duration → Time
overdue pod timeout = pod.meta.creation_timestamp + (timeout + pending_grace)

abbrev pub script_label : Pod → Script
script_label pod = script_of (value_at pod.meta.labels label_script)

-- The end of a finished run that no container tells: the deadline after the start, or overdue.
abbrev end_of : Option Time → Duration → Time → Time
end_of none timeout late = late
end_of (some start) timeout late = start + timeout

module _ ⦃p : Platform⦄ where
  late_text : Duration → Text
  late_text timeout =
      bytes "the check did not finish within "
      ++ (p.duration_text (timeout + pending_grace) ++ bytes " of its pod's creation")

  stopped_text : Duration → Text
  stopped_text timeout =
      bytes "the check was stopped at its " ++ (p.duration_text timeout ++ bytes " deadline")

  blank : Pod → Time → Text → Result
  blank pod at output = record { script = script_label pod; exit = none; at = at; output = output }

  -- The result of a finished pod before its container statuses are read.
  unfoldable pub before_containers : Pod → Duration → Result
  unfolding blank stopped_text
  before_containers pod timeout =
      blank pod (end_of pod.status.start_time timeout (overdue pod timeout))
        (if deadline_exceeded pod then stopped_text timeout else [])

  -- The result, and whether the run is done: while it is not, the pod may still produce one.
  unfoldable pub result_of : Pod → Duration → Time → Result × Bool
  unfolding blank read_statuses before_containers overdue late_text
  result_of pod timeout now =
      if not (is_finished pod.status.phase)
      then if ltb now (overdue pod timeout)
        then (blank pod 0 [], false)
        else (blank pod (overdue pod timeout) (late_text timeout), true)
      else (
        read_statuses (deadline_exceeded pod) pod.status.container_statuses
            (before_containers pod timeout),
        true,
      )
