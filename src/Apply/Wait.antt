-- ===== src/Apply/Wait.antt =====
-- apply.go: when a finished IncidentApply is looked at again.
use incident_controller.Prelude.{
  ◌+◌, ◌-◌, ◌≤◌, ◌≡◌, ◌⊎◌, true, Option, none, some, arith, ltb, if◌then◌else◌,
}
use incident_controller.Api.Meta.{Time, Duration, second, hour}
use incident_controller.Api.IncidentApply.{IncidentApply, terminal}

abbrev pub max_apply_requeue : Duration
max_apply_requeue = hour

-- `time.Until`, below a second as soon as it is past.
abbrev wait_until : Time → Time → Duration
wait_until due now =
    let d = due - now in
    if ltb d second then second else if ltb max_apply_requeue d then max_apply_requeue else d

abbrev wait_from : Option Time → Duration → Time → Duration → Duration
wait_from none ttl now poll = poll
wait_from (some finished) ttl now poll = wait_until (finished + ttl) now

unfoldable pub apply_poll_interval_hook : Duration → IncidentApply → Time → Duration → Duration
apply_poll_interval_hook ttl ia now poll =
    if terminal ia.status.phase then wait_from ia.status.finished_at ttl now poll else poll

-- A finished request is looked at again after a second at least and an hour at most; not before
-- its TTL runs out, unless the hour or the second decides; and within a second of it, once it is
-- an hour away or less.
pub apply_poll_interval_hook-bounds :
    (ttl : Duration) (ia : IncidentApply) (now finished : Time) (poll : Duration)
    → terminal ia.status.phase ≡ true
    → ia.status.finished_at ≡ some finished
    → let wait = apply_poll_interval_hook ttl ia now poll in
      (second ≤ wait)
      × (wait ≤ max_apply_requeue)
      × (now + wait ≤ finished + ttl ⊎ wait ≡ second)
      × (finished + ttl ≤ now + max_apply_requeue → finished + ttl ≤ now + wait)
unfolding apply_poll_interval_hook
apply_poll_interval_hook-bounds ttl ia now finished poll t f = ground arith
