-- ===== src/Platform.antt =====
-- What the controllers take from third-party libraries, as an interface: metav1.Time.Rfc3339Copy
-- and equality.Semantic.DeepEqual of apimachinery, ptr.Equal of k8s.io/utils, the conditions of
-- provider-runtime. The laws are what those libraries document.
use incident_controller.Prelude.{
  ℤ, Text, bytes, Bool, true, Option, List, ◌≡◌, ◌≢◌, ◌↔◌, ◌≤◌, ◌<◌, ◌+◌,
}
use incident_controller.Api.Meta.{ObjectMeta, Duration, Time, second, Condition, ConditionStatus}
use incident_controller.Api.Rbac.{PolicyRule}
use incident_controller.Api.Incident.{IncidentStatus}

pub record Platform : Type 0 where
  -- A copy of a time at second precision.
  pub rfc3339_copy : Time → Time
  pub rfc3339_copy_le : (t : Time) → rfc3339_copy t ≤ t
  pub rfc3339_copy_within : (t : Time) → t < rfc3339_copy t + second
  pub rfc3339_copy_mono : (t u : Time) → t ≤ u → rfc3339_copy t ≤ rfc3339_copy u
  pub rfc3339_copy_idem : (t : Time) → rfc3339_copy (rfc3339_copy t) ≡ rfc3339_copy t
  -- ptr.Equal: both nil, or equal values.
  pub ptr_equal : Option ℤ → Option ℤ → Bool
  pub ptr_equal_iff : (a b : Option ℤ) → (ptr_equal a b ≡ true) ↔ (a ≡ b)
  pub deep_equal : IncidentStatus → IncidentStatus → Bool
  pub deep_equal_iff : (s t : IncidentStatus) → (deep_equal s t ≡ true) ↔ (s ≡ t)
  pub rules_equal : List PolicyRule → List PolicyRule → Bool
  pub rules_equal_iff : (s t : List PolicyRule) → (rules_equal s t ≡ true) ↔ (s ≡ t)
  -- schema.ParseGroupVersion: the group, where the text is well formed.
  pub parse_group_version : Text → Option Text
  -- time.Duration.String, which only messages carry.
  pub duration_text : Duration → Text
  -- The status of the condition of a kind; a missing one is Unknown.
  pub get_condition : List Condition → Text → ConditionStatus
  pub set_conditions : List Condition → Condition → List Condition
  pub get-set_conditions_self :
      (cs : List Condition) (c : Condition) → get_condition (set_conditions cs c) c.kind ≡ c.status
  pub get-set_conditions_ne :
      (cs : List Condition) (c : Condition) (kind : Text)
      → kind ≢ c.kind
      → get_condition (set_conditions cs c) kind ≡ get_condition cs kind
  -- The Ready conditions of provider-runtime.
  pub available : Condition
  pub available_kind : available.kind ≡ bytes "Ready"
  pub deleting : Condition
  pub deleting_kind : deleting.kind ≡ bytes "Ready"
  -- meta.ExternalCreateIncomplete: a create was begun, and its end is not recorded.
  pub create_incomplete : ObjectMeta → Bool
