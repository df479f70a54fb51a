-- ===== src/CheckPod/ReadBack.antt =====
-- checkpod.go: what the controllers read back from the metadata that they write.
use incident_controller.Prelude.{
  ◌≡◌, ◌≢◌, ◌⊎◌, inl, inr, refl, Text, false, [], ◌∷◌, arith, bytes, is_empty, text_eq, All,
}
use incident_controller.Api.Meta.{Time, Duration, value_at, TextMap}
use incident_controller.Api.Incident.{Incident, Script}
use incident_controller.Api.IncidentApply.{IncidentApply}
use incident_controller.CheckPod.Names.{
  label_apply_uid, label_incident_uid, label_managed_by, label_component, annotation_apply_name,
  annotation_apply_namespace, annotation_incident_name, annotation_incident_namespace,
  incident_of_pod, apply_of_pod, selector, label_script, script_text,
}
use incident_controller.CheckPod.Sandbox.{CheckPods, check_pod, apply_pod}
use incident_controller.CheckPod.ResultOf.{script_of}

is_empty-ne : (s : Text) → s ≢ [] → is_empty s ≡ false
is_empty-ne [] n = absurd (n refl)
is_empty-ne (c ∷ s) n = refl

-- A script that the controllers name.
abbrev pub IsNamed : Script → Type 0
IsNamed s = (s ≡ Script.precondition) ⊎ (s ≡ Script.apply) ⊎ (s ≡ Script.verify)

pub script_of-text : (s : Script) → IsNamed s → script_of (script_text s) ≡ s
unfolding script_of script_text text_eq bytes
script_of-text s h = ground arith

-- A label of the map has the value that the selector asks for.
abbrev pub Matches : TextMap → TextMap → Type 0
Matches labels wanted = All (λ (kv : Text × Text). value_at labels kv.0 ≡ kv.1) wanted

-- The metadata of a check pod reads back: its events go to its incident and to no request, the
-- incident's selector matches it, and its script is the one that it was made for.
pub check_pod-read_back :
    (p : CheckPods) (inc : Incident) (s : Script) (from : Time)
    → inc.meta.namespace ≢ []
    → inc.meta.name ≢ []
    → IsNamed s
    → let m = (check_pod p inc s from).meta in
      (incident_of_pod m ≡ (inc.meta.namespace, inc.meta.name) ∷ [])
      × (apply_of_pod m ≡ [])
      × Matches m.labels (selector inc)
      × (script_of (value_at m.labels label_script) ≡ s)
unfolding check_pod incident_of_pod apply_of_pod selector value_at text_eq bytes
    annotation_incident_namespace annotation_incident_name annotation_apply_namespace
    annotation_apply_name label_component label_managed_by label_incident_uid label_script
check_pod-read_back p inc s from n m h =
    (rw (is_empty-ne _ n, is_empty-ne _ m) refl, refl, (refl, tt), script_of-text s h)

-- The metadata of an apply pod reads back too: its events go to its request and to no incident,
-- and its script is apply.
pub apply_pod-read_back :
    (p : CheckPods) (ia : IncidentApply) (timeout : Duration)
    → ia.meta.namespace ≢ []
    → ia.meta.name ≢ []
    → let m = (apply_pod p ia timeout).meta in
      (apply_of_pod m ≡ (ia.meta.namespace, ia.meta.name) ∷ [])
      × (incident_of_pod m ≡ [])
      × (script_of (value_at m.labels label_script) ≡ Script.apply)
unfolding apply_pod incident_of_pod apply_of_pod value_at text_eq bytes
    annotation_incident_namespace annotation_incident_name annotation_apply_namespace
    annotation_apply_name label_component label_managed_by label_apply_uid label_script
apply_pod-read_back p ia timeout n m =
    (rw (is_empty-ne _ n, is_empty-ne _ m) refl, refl, script_of-text Script.apply (inr (inl refl)))
