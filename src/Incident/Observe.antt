-- ===== src/Incident/Observe.antt =====
-- incident.go: Observe, which records the finished check pods and decides what is to be done.
use incident_controller.Prelude.{
  Text, Bool, true, false, not, ◌||◌, ◌&&◌, Option, none, some, List, [], ◌∷◌, ◌++◌, ltb,
  if◌then◌else◌,
}
use incident_controller.Api.Meta.{Condition, Time, was_deleted}
use incident_controller.Api.Incident.{Incident, script_eq}
use incident_controller.Api.Pod.{Pod, ConfigMap}
use incident_controller.Platform.{Platform}
use incident_controller.Server.{
  Server, Io, pure, ◌>>=◌, lift, pods_not_listed, config_maps_not_listed,
}
use incident_controller.Machine.Output.{Config, Result}
use incident_controller.Machine.Checks.{current_script, with_status}
use incident_controller.Machine.Cadence.{check_from, check_due}
use incident_controller.Machine.Transitions.{apply_spec}
use incident_controller.Machine.Verdicts.{record_result}
use incident_controller.CheckPod.Names.{selector}
use incident_controller.CheckPod.ResultOf.{result_of}
use incident_controller.Incident.LastRuns.{LastRuns, seen, forget}
use incident_controller.Incident.Plan.{Plan, new_plan, plan_text}

pub record Observation : Type 0 where
  pub resource_exists : Bool
  pub resource_up_to_date : Bool
  pub diff : Text

-- What a reconcile works on: the Incident in memory, the plan, and the runs that all share.
pub record Reconcile : Type 0 where
  pub inc : Incident
  pub plan : Plan
  pub runs : LastRuns

-- sort.Slice by creation time, as an insertion sort: pods of one instant keep their order.
unfoldable pub insert_pod : Pod → List Pod → List Pod
insert_pod x [] = x ∷ []
insert_pod x (y ∷ ys) =
    let rest = insert_pod x ys in
    if ltb x.meta.creation_timestamp y.meta.creation_timestamp then x ∷ y ∷ ys else y ∷ rest

unfoldable pub sort_onto : List Pod → List Pod → List Pod
unfolding insert_pod
sort_onto done [] = done
sort_onto done (x ∷ xs) = sort_onto (insert_pod x done) xs

unfoldable pub sort_pods : List Pod → List Pod
unfolding sort_onto
sort_pods = sort_onto []

abbrev is_none {ℓ} : {A : Type ℓ} → Option A → Bool
is_none none = true
is_none (some _) = false

abbrev with_stale : Reconcile → Pod → Reconcile
with_stale s pod = record s { plan = record (s.plan) { stale = s.plan.stale ++ pod ∷ [] } }

abbrev with_live : Reconcile → Pod → Reconcile
with_live s pod = record s { plan = record (s.plan) { live = some pod } }

abbrev pub is_nil {ℓ} : {A : Type ℓ} → List A → Bool
is_nil [] = true
is_nil (_ ∷ _) = false

module _ ⦃p : Platform⦄ where
  -- A finished run of the current script is recorded; of any other it is dropped.
  record_run : Config → Time → Reconcile → Result → Reconcile
  unfolding record_result current_script seen
  record_run cfg now s r =
      let (inc, changes) = record_result s.inc cfg r now in
      if script_eq r.script (current_script s.inc)
      then record {
        inc = inc;
        plan = record (s.plan) { changes = s.plan.changes ++ changes };
        runs = seen s.runs s.inc.meta.uid r.at;
      }
      else s

  -- One round of the loop over the check pods.
  unfoldable pub observe_pod : Config → Time → Reconcile → Pod → Reconcile
  unfolding record_run result_of current_script
  observe_pod cfg now s pod =
      let (r, done) = result_of pod cfg.check_timeout now in
      if was_deleted pod.meta
      then s
      else if not done && script_eq r.script (current_script s.inc) && is_none s.plan.live
      then with_live s pod
      else if not done
      then with_stale s pod
      else with_stale (record_run cfg now s r) pod

  unfoldable pub observe_pods : Config → Time → Reconcile → List Pod → Reconcile
  unfolding observe_pod
  observe_pods cfg now s [] = s
  observe_pods cfg now s (pod ∷ pods) = observe_pods cfg now (observe_pod cfg now s pod) pods

  abbrev pub set_condition : Incident → Condition → Incident
  set_condition inc c =
      with_status inc
        (record (inc.status) { conditions = p.set_conditions inc.status.conditions c })

  -- The spec applied, before the pods are read.
  unfoldable pub begin : Incident → LastRuns → Time → Reconcile
  unfolding apply_spec
  begin inc runs now =
      let (after, changes, consumed) = apply_spec inc now in
      record { inc = after; plan = new_plan changes consumed; runs = runs }

  -- The plan once the pods are read, against the incident before; and the Ready condition.
  unfoldable pub conclude : Config → Time → Incident → Reconcile → Reconcile
  unfolding check_due check_from
  conclude cfg now before s =
      let last_run = s.runs s.inc.meta.uid in
      record s {
        inc = set_condition s.inc p.available;
        plan = record (s.plan) {
          dirty = s.plan.consume_applied || not (p.deep_equal before.status s.inc.status);
          due = is_none s.plan.live && check_due s.inc cfg last_run now;
          from = check_from s.inc last_run;
        };
      }

  -- Observe of an incident that is not deleted, with the check pods as they were listed.
  unfoldable pub observe_live : Config → Time → Incident → LastRuns → List Pod → Reconcile
  unfolding conclude begin observe_pods sort_pods
  observe_live cfg now inc runs pods =
      conclude cfg now inc (observe_pods cfg now (begin inc runs now) (sort_pods pods))

  abbrev pub out_of_date : Plan → Bool
  out_of_date plan = plan.dirty || not (is_nil plan.stale) || plan.due

  unfoldable pub observation : Plan → Observation
  unfolding plan_text
  observation plan =
      if out_of_date plan
      then record { resource_exists = true; resource_up_to_date = false; diff = plan_text plan }
      else record { resource_exists = true; resource_up_to_date = true; diff = [] }

  -- A deleted incident is forgotten, and exists as long as its check objects do.
  unfoldable pub observe_deleted : Incident → LastRuns → Plan → Bool → Reconcile × Observation
  unfolding forget
  observe_deleted inc runs plan left = (
    record { inc = set_condition inc p.deleting; plan = plan; runs = forget runs inc.meta.uid },
    record { resource_exists = left; resource_up_to_date = false; diff = [] },
  )

module _ ⦃p : Platform⦄ ⦃srv : Server⦄ where
  -- `list`: the check pods and ConfigMaps of an incident.
  unfoldable pub list_objects : Text → Incident → Io (List Pod × List ConfigMap)
  unfolding selector
  list_objects namespace inc = do
    pods ← λ h. (lift (srv.list_pods h namespace (selector inc)) pods_not_listed, h)
    cms ← λ h. (lift (srv.list_config_maps h namespace (selector inc)) config_maps_not_listed, h)
    pure (pods, cms)

  -- A new external serves each reconcile, so the plan before is the empty one.
  unfoldable pub observe : Config → Text → Time → Incident → LastRuns → Io (Reconcile × Observation)
  unfolding list_objects observe_live observation observe_deleted
  observe cfg namespace now inc runs = do
    (pods, cms) ← list_objects namespace inc
    let s = observe_live cfg now inc runs pods
    let gone = observe_deleted inc runs (new_plan [] false) (not (is_nil pods && is_nil cms))
    pure (if was_deleted inc.meta then gone else (s, observation s.plan))
