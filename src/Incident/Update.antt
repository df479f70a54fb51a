-- ===== src/Incident/Update.antt =====
-- incident.go: Update and Delete, which act on what Observe found.
use incident_controller.Prelude.{Text, false, List, [], ◌∷◌, if◌then◌else◌}
use incident_controller.Api.Meta.{Time}
use incident_controller.Api.Incident.{Incident, Script}
use incident_controller.Api.Pod.{Pod, ConfigMap}
use incident_controller.Platform.{Platform}
use incident_controller.Server.{
  write_or_read, Server, Io, pure, ◌>>=◌, ◌>>◌, lift, issue, announce, ignore_not_found,
  ignore_already_exists, update_status, update_incident, delete_pod, delete_config_map,
  create_config_map, status_not_persisted, applied_not_reset, pod_not_deleted,
  config_map_not_deleted, pod_not_created, pod_not_read, config_map_not_created,
}
use incident_controller.Machine.Checks.{current_script}
use incident_controller.Machine.Transitions.{Change}
use incident_controller.CheckPod.Sandbox.{CheckPods, check_pod, check_config_map}
use incident_controller.Incident.Plan.{Plan}
use incident_controller.Incident.Observe.{list_objects}

unfoldable pub announce_all : List Change → Io (Unit {0})
announce_all [] = pure tt
announce_all (c ∷ cs) = do announce c.reason c.message; announce_all cs

module _ ⦃srv : Server⦄ where
  unfoldable pub delete_pods : List Pod → Io (Unit {0})
  delete_pods [] = pure tt
  delete_pods (pod ∷ pods) = do
    issue (delete_pod pod) (ignore_not_found (pod_not_deleted pod.meta.name))
    delete_pods pods

  unfoldable pub delete_config_maps : List ConfigMap → Io (Unit {0})
  delete_config_maps [] = pure tt
  delete_config_maps (cm ∷ cms) = do
    issue (delete_config_map cm) (ignore_not_found (config_map_not_deleted cm.meta.name))
    delete_config_maps cms

  -- The server's copy of the incident replaces the one in memory.
  abbrev pub write_status_of : Incident → Io Incident
  write_status_of inc h =
      (lift (srv.write_status h inc) status_not_persisted, update_status inc ∷ h)

  unfoldable pub persist_status : Plan → Incident → Io Incident
  persist_status plan inc = do after ← write_status_of inc; announce_all plan.changes; pure after

  unfoldable pub persist : Plan → Incident → Io Incident
  unfolding persist_status
  persist plan inc = if plan.dirty then persist_status plan inc else pure inc

  abbrev write_spec : Incident → Io Incident
  write_spec inc h = (lift (srv.write_incident h inc) applied_not_reset, update_incident inc ∷ h)

  unfoldable pub reset_applied : Plan → Incident → Io Incident
  reset_applied plan inc =
      let reset = record inc { spec = record (inc.spec) { applied = false } } in
      if plan.consume_applied then write_spec reset else pure inc

  unfoldable pub create_or_read : Pod → Io Pod
  create_or_read = write_or_read pod_not_created pod_not_read

module _ ⦃p : Platform⦄ ⦃srv : Server⦄ where
  unfoldable pub start_check : CheckPods → Incident → Script → Time → Io (Unit {0})
  start_check pods inc s from = do
    pod ← create_or_read (check_pod pods inc s from)
    issue (create_config_map (check_config_map pods inc pod s))
        (ignore_already_exists config_map_not_created)

  unfoldable pub update : CheckPods → Plan → Incident → Io (Unit {0})
  update pods plan inc = do
    persisted ← persist plan inc
    reset ← reset_applied plan persisted
    delete_pods plan.stale
    if plan.due then start_check pods reset (current_script reset) plan.from else pure tt

  unfoldable pub delete : Text → Incident → Io (Unit {0})
  unfolding list_objects delete_pods delete_config_maps
  delete namespace inc = do
    (pods, cms) ← list_objects namespace inc
    delete_pods pods
    delete_config_maps cms
