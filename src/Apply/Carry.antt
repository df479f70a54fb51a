-- ===== src/Apply/Carry.antt =====
-- apply.go: Create, Update and Delete of the IncidentApply controller.
use incident_controller.Prelude.{
  ◌∷◌, ◌++◌, Text, Bool, true, false, Option, none, some, [], bytes, if◌then◌else◌,
}
use incident_controller.Api.Meta.{Duration}
use incident_controller.Api.Incident.{Incident}
use incident_controller.Api.IncidentApply.{IncidentApply, ApplyPhase, reason_apply_finished}
use incident_controller.Api.Pod.{DnsPolicy, RestartPolicy, Pod}
use incident_controller.Platform.{Platform}
use incident_controller.Server.{
  Server, Fetched, found, fault, not_found, ok, err, Io, pure, ◌>>=◌, ◌>>◌, lift, issue, announce,
  alert, ignore_not_found, ignore_already_exists, write_or_read, update_status, delete_pod,
  create_secret, create_config_map, patch_apply, delete_apply, apply_pod_not_created,
  apply_pod_not_read, apply_secret_not_created, apply_config_map_not_created, incident_not_fetched,
  apply_run_not_recorded, apply_status_not_persisted, apply_pod_not_deleted, apply_not_deleted,
}
use incident_controller.Machine.Output.{Result}
use incident_controller.Machine.Verdicts.{record_apply}
use incident_controller.CheckPod.Names.{apply_name}
use incident_controller.CheckPod.Sandbox.{
  new_status, CheckPods, apply_pod, apply_secret, apply_config_map,
}
use incident_controller.Incident.Update.{announce_all}
use incident_controller.Apply.Admission.{ApplyStart}
use incident_controller.Apply.Plan.{ApplyPlan}

module _ ⦃srv : Server⦄ where
  -- Create of an admitted run: the pod, then the Secret and the ConfigMap that it owns.
  unfoldable pub start_run : CheckPods → Duration → IncidentApply → ApplyStart → Io (Unit {0})
  unfolding apply_pod apply_secret apply_config_map
  start_run pods timeout ia start = do
    pod ← write_or_read apply_pod_not_created apply_pod_not_read (apply_pod pods ia timeout)
    issue (create_secret (apply_secret pods ia pod start.kubeconfig))
        (ignore_already_exists apply_secret_not_created)
    issue (create_config_map (apply_config_map pods ia pod start.script))
        (ignore_already_exists apply_config_map_not_created)

  unfoldable pub create_apply : CheckPods → Duration → ApplyPlan → IncidentApply → Io (Unit {0})
  unfolding start_run
  create_apply pods timeout plan ia = elim plan.start [
    | none ↦ pure tt
    | some start ↦ start_run pods timeout ia start
  ]

abbrev pub phase_text : ApplyPhase → Text
phase_text ApplyPhase.unset = []
phase_text ApplyPhase.running = bytes "Running"
phase_text ApplyPhase.succeeded = bytes "Succeeded"
phase_text ApplyPhase.failed = bytes "Failed"
phase_text ApplyPhase.rejected = bytes "Rejected"

abbrev pub is_succeeded : ApplyPhase → Bool
is_succeeded ApplyPhase.succeeded = true
is_succeeded _ = false

-- `&corev1.Pod{ObjectMeta: {Name, Namespace}}`: an object that is named only to be deleted.
unfoldable pub pod_named : Text → Text → Pod
pod_named name namespace = record {
  meta = record {
    name = name;
    namespace = namespace;
    uid = [];
    labels = [];
    annotations = [];
    owner_references = [];
    creation_timestamp = 0;
    deletion_timestamp = none;
  };
  spec = record {
    service_account_name = [];
    automount_service_account_token = none;
    restart_policy = RestartPolicy.restart_always;
    active_deadline_seconds = none;
    enable_service_links = none;
    host_network = false;
    host_pid = false;
    host_ipc = false;
    dns_policy = DnsPolicy.cluster_first;
    nameservers = [];
    security_context = none;
    volumes = [];
    init_containers = [];
    containers = [];
  };
  status = new_status;
}

module _ ⦃srv : Server⦄ where
  -- Delete: the Secret and the ConfigMap go with the pod that owns them.
  unfoldable pub delete_request : CheckPods → IncidentApply → Io (Unit {0})
  unfolding apply_name pod_named
  delete_request pods ia =
      issue (delete_pod (pod_named (apply_name ia) pods.namespace))
        (ignore_not_found (apply_pod_not_deleted (apply_name ia)))

-- `announce`: the one ApplyFinished event, a warning unless the run succeeded.
unfoldable pub announce_finished : IncidentApply → Io (Unit {0})
unfolding bytes reason_apply_finished
announce_finished ia =
    let msg = phase_text ia.status.phase ++ (bytes ": " ++ ia.status.message) in
    if is_succeeded ia.status.phase
    then announce reason_apply_finished msg
    else alert reason_apply_finished msg

-- The incident of a request: one that is gone is no error.
abbrev pub fetch_or_none : Fetched Incident → Io (Option Incident)
fetch_or_none (found inc) h = (ok (some inc), h)
fetch_or_none (fault not_found) h = (ok none, h)
fetch_or_none (fault f) h = (err (incident_not_fetched f), h)

module _ ⦃p : Platform⦄ ⦃srv : Server⦄ where
  abbrev pub write_recorded : Incident → Io Incident
  write_recorded inc h =
      (lift (srv.write_status h inc) (apply_run_not_recorded inc.meta.name), update_status inc ∷ h)

  -- The status and its events, where the run changes the incident.
  unfoldable pub record_changes : Incident → Result → Text → Io (Unit {0})
  record_changes inc r by =
      let (after, changes, changed) = record_apply inc r by in
      let persisted : Io (Unit {0}) = write_recorded after >>= λ written. announce_all changes in
      if changed then persisted else pure tt

  abbrev pub record_if : Result → Text → Option Incident → Io (Unit {0})
  record_if r by none = pure tt
  record_if r by (some inc) = record_changes inc r by

  abbrev pub fetch_incident : IncidentApply → Io (Option Incident)
  fetch_incident ia h =
      fetch_or_none (srv.get_incident h ia.meta.namespace ia.spec.incident_ref.name) h

  unfoldable pub record_on_incident : IncidentApply → Result → Io (Unit {0})
  unfolding record_changes
  record_on_incident ia r = do
    inc ← fetch_incident ia
    record_if r ia.spec.requested_by.username inc

  unfoldable pub record_run_of : ApplyPlan → IncidentApply → Io (Unit {0})
  unfolding record_on_incident
  record_run_of plan ia = elim plan.run [ none ↦ pure tt | some r ↦ record_on_incident ia r ]

  abbrev pub patch_status : IncidentApply → IncidentApply → Io IncidentApply
  patch_status base ia h =
      (lift (srv.write_apply h base ia) apply_status_not_persisted, patch_apply base ia ∷ h)

  -- The server's copy of the request replaces the one in memory.
  unfoldable pub persist_apply : ApplyPlan → IncidentApply → Io IncidentApply
  unfolding announce_finished
  persist_apply plan ia =
      let persisted : Io IncidentApply = patch_status plan.base ia >>= λ after.
      (if plan.finished then announce_finished after else pure tt) >> pure after in
      if plan.dirty then persisted else pure ia

  unfoldable pub delete_run_pod : ApplyPlan → Io (Unit {0})
  delete_run_pod plan = elim plan.pod [
    | none ↦ pure tt
    | some pod ↦ issue (delete_pod pod) (ignore_not_found (apply_pod_not_deleted pod.meta.name))
  ]

  unfoldable pub delete_expired : ApplyPlan → IncidentApply → Io (Unit {0})
  delete_expired plan ia =
      if plan.expired then issue (delete_apply ia) (ignore_not_found apply_not_deleted) else pure tt

  unfoldable pub update_apply : ApplyPlan → IncidentApply → Io (Unit {0})
  unfolding record_run_of persist_apply delete_run_pod delete_expired
  update_apply plan ia = do
    record_run_of plan ia
    after ← persist_apply plan ia
    delete_run_pod plan
    delete_expired plan after
