-- ===== src/CheckPod/Names.antt =====
-- checkpod.go: labels, annotations, and the names of pods and ConfigMaps.
use incident_controller.Prelude.{
  ◌++◌, List, none, take, length, ℕ, zero, suc, ◌/◌, ◌%◌, ◌-◌, ◌||◌, is_empty, ◌+◌, Text, [], ◌∷◌,
  bytes, ltb, ◌==◌, if◌then◌else◌,
}
use incident_controller.Api.Incident.{Incident, Script}
use incident_controller.Api.Meta.{TextMap, second, ObjectMeta, value_at, Time}
use incident_controller.Api.IncidentApply.{IncidentApply}

unfoldable pub label_component : Text
unfolding bytes
label_component = bytes "app.kubernetes.io/component"

unfoldable pub label_managed_by : Text
unfolding bytes
label_managed_by = bytes "app.kubernetes.io/managed-by"

unfoldable pub component_check : Text
unfolding bytes
component_check = bytes "incident-check"

unfoldable pub managed_by : Text
unfolding bytes
managed_by = bytes "incident-provider"

unfoldable pub label_incident_uid : Text
unfolding bytes
label_incident_uid = bytes "observability.krateo.io/incident-uid"

unfoldable pub label_script : Text
unfolding bytes
label_script = bytes "observability.krateo.io/check-script"

unfoldable pub annotation_incident_namespace : Text
unfolding bytes
annotation_incident_namespace = bytes "observability.krateo.io/incident-namespace"

unfoldable pub annotation_incident_name : Text
unfolding bytes
annotation_incident_name = bytes "observability.krateo.io/incident-name"

unfoldable pub label_apply_uid : Text
unfolding bytes
label_apply_uid = bytes "observability.krateo.io/incidentapply-uid"

unfoldable pub annotation_apply_namespace : Text
unfolding bytes
annotation_apply_namespace = bytes "observability.krateo.io/incidentapply-namespace"

unfoldable pub annotation_apply_name : Text
unfolding bytes
annotation_apply_name = bytes "observability.krateo.io/incidentapply-name"

unfoldable pub container_name : Text
unfolding bytes
container_name = bytes "check"

unfoldable pub script_volume : Text
unfolding bytes
script_volume = bytes "script"

unfoldable pub tmp_volume : Text
unfolding bytes
tmp_volume = bytes "tmp"

unfoldable pub kubeconfig_volume : Text
unfolding bytes
kubeconfig_volume = bytes "kubeconfig"

unfoldable pub script_key : Text
unfolding bytes
script_key = bytes "check.sh"

unfoldable pub kubeconfig_key : Text
unfolding bytes
kubeconfig_key = bytes "config"

unfoldable pub script_text : Script → Text
unfolding bytes
script_text Script.precondition = bytes "precondition"
script_text Script.apply = bytes "apply"
script_text Script.verify = bytes "verify"
script_text Script.unset = []
script_text (Script.other s) = s

-- `strings.ReplaceAll(s, "-", "")`
unfoldable pub without_dashes : Text → Text
without_dashes [] = []
without_dashes (c ∷ s) = let rest = without_dashes s in if c == 0x2d then rest else c ∷ rest

-- `%d` of a number that is not negative; a number has no more digits than its value plus one.
unfoldable pub digits_to : ℕ → ℕ → Text → Text
digits_to zero n acc = acc
digits_to (suc fuel) n acc =
    let next = (n % 10 + 0x30) ∷ acc in
    let rest = digits_to fuel (n / 10) next in if ltb n 10 then next else rest

unfoldable pub decimal : ℕ → Text
unfolding digits_to
decimal n = digits_to (suc n) n []

-- Seconds from Go's zero time to 1970.
abbrev pub unix_epoch : ℕ
unix_epoch = 62_135_596_800

-- `%d` of `from.Unix()`, which is negative before 1970.
unfoldable pub unix_text : Time → Text
unfolding decimal
unix_text from =
    let seconds = from / second in
    if ltb seconds unix_epoch
    then 0x2d ∷ decimal (unix_epoch - seconds)
    else decimal (seconds - unix_epoch)

-- `if len(uid) > 12 { uid = uid[:12] }`
abbrev pub short_uid : Text → Text
short_uid uid = if ltb 12 (length uid) then take 12 uid else uid

unfoldable pub seq_text : Time → Text
unfolding unix_text decimal
seq_text from = if from == 0 then decimal 0 else unix_text from

-- The run of a script that became due a poll interval after `from`.
unfoldable pub check_name : Incident → Script → Time → Text
unfolding bytes without_dashes script_text seq_text
check_name inc s from =
    bytes "check-"
    ++ (short_uid (without_dashes inc.meta.uid)
        ++ (bytes "-" ++ (script_text s ++ (bytes "-" ++ seq_text from))))

unfoldable pub apply_name : IncidentApply → Text
unfolding bytes without_dashes
apply_name ia = bytes "apply-" ++ without_dashes ia.meta.uid

-- The labels that match the check pods and ConfigMaps of one incident.
unfoldable pub selector : Incident → TextMap
selector inc = (label_incident_uid, inc.meta.uid) ∷ []

-- `CheckPods.meta`.
unfoldable pub check_meta : Text → Incident → Text → Script → ObjectMeta
check_meta namespace inc name s = record {
  name = name;
  namespace = namespace;
  uid = [];
  labels =
      (label_component, component_check)
      ∷ (label_managed_by, managed_by)
      ∷ (label_incident_uid, inc.meta.uid)
      ∷ (label_script, script_text s)
      ∷ [];
  annotations =
      (annotation_incident_namespace, inc.meta.namespace)
      ∷ (annotation_incident_name, inc.meta.name)
      ∷ [];
  owner_references = [];
  creation_timestamp = 0;
  deletion_timestamp = none;
}

unfoldable pub apply_meta : Text → IncidentApply → ObjectMeta
unfolding apply_name
apply_meta namespace ia = record {
  name = apply_name ia;
  namespace = namespace;
  uid = [];
  labels =
      (label_component, component_check)
      ∷ (label_managed_by, managed_by)
      ∷ (label_apply_uid, ia.meta.uid)
      ∷ (label_script, script_text Script.apply)
      ∷ [];
  annotations =
      (annotation_apply_namespace, ia.meta.namespace) ∷ (annotation_apply_name, ia.meta.name) ∷ [];
  owner_references = [];
  creation_timestamp = 0;
  deletion_timestamp = none;
}

-- The object that a pod's annotations name: incidentOfPod and applyOfPod.
requests_of : Text → Text → ObjectMeta → List (Text × Text)
unfolding value_at
requests_of ns_key name_key m =
    let ns = value_at m.annotations ns_key in
    let name = value_at m.annotations name_key in
    if is_empty ns || is_empty name then [] else (ns, name) ∷ []

unfoldable pub incident_of_pod : ObjectMeta → List (Text × Text)
unfolding requests_of
incident_of_pod = requests_of annotation_incident_namespace annotation_incident_name

unfoldable pub apply_of_pod : ObjectMeta → List (Text × Text)
unfolding requests_of
apply_of_pod = requests_of annotation_apply_namespace annotation_apply_name
