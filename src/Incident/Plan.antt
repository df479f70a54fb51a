-- ===== src/Incident/Plan.antt =====
-- incident.go: what Observe found for Update to act on.
use incident_controller.Prelude.{
  Text, Bool, false, Option, none, List, [], ◌∷◌, ◌++◌, map, bytes, length, ltb, if◌then◌else◌,
}
use incident_controller.Api.Meta.{Time}
use incident_controller.Api.Pod.{Pod}
use incident_controller.Machine.Transitions.{Change}
use incident_controller.CheckPod.Names.{decimal}

pub record Plan : Type 0 where
  pub changes : List Change
  pub dirty : Bool
  pub due : Bool
  pub from : Time
  pub consume_applied : Bool
  pub stale : List Pod
  pub live : Option Pod

abbrev pub new_plan : List Change → Bool → Plan
new_plan changes consumed = record {
  changes = changes;
  dirty = false;
  due = false;
  from = 0;
  consume_applied = consumed;
  stale = [];
  live = none;
}

-- `strings.Join(parts, "; ")`
unfoldable pub join : List Text → Text
unfolding bytes
join [] = []
join (s ∷ []) = s
join (s ∷ t ∷ parts) = s ++ (bytes "; " ++ join (t ∷ parts))

abbrev pub part_if : Bool → Text → List Text
part_if b s = if b then s ∷ [] else []

unfoldable pub plan_text : Plan → Text
unfolding bytes join decimal
plan_text p = join (
    map (λ (c : Change). c.message) p.changes
    ++ (part_if p.consume_applied (bytes "spec.applied consumed")
        ++ (part_if (ltb 0 (length p.stale))
              (decimal (length p.stale) ++ bytes " check pod(s) to delete")
            ++ part_if p.due (bytes "check due"))))
