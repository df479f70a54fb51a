-- ===== src/Api/Meta.antt =====
-- What every API object carries: metav1.ObjectMeta, metav1.Time and the conditions of
-- provider-runtime, as far as the controllers read them.
use incident_controller.Prelude.{
  List, [], ◌∷◌, none, some, text_eq, if◌then◌else◌, ℕ, Text, Bool, true, false, Option, ◌*◌,
}

-- time.Time: nanoseconds since Go's zero time, so 0 is the zero value. metav1.Time wraps it.
abbrev pub Time : Type 0
Time = ℕ

-- time.Duration in nanoseconds. The configured durations are not negative.
abbrev pub Duration : Type 0
Duration = ℕ

abbrev pub second : Duration
second = 1_000_000_000

abbrev pub minute : Duration
minute = 60 * second

abbrev pub hour : Duration
hour = 60 * minute

-- A map of texts, read at a key and written as a literal.
abbrev pub TextMap : Type 0
TextMap = List (Text × Text)

unfoldable pub lookup : Text → TextMap → Option Text
lookup key [] = none
lookup key ((k, v) ∷ rest) = if text_eq k key then some v else lookup key rest

-- Go reads the empty text at a missing key.
unfoldable pub value_at : TextMap → Text → Text
unfolding lookup
value_at m key = elim (lookup key m) [ none ↦ [] | some v ↦ v ]

pub record OwnerReference : Type 0 where
  pub api_version : Text
  pub kind : Text
  pub name : Text
  pub uid : Text
  pub controller : Option Bool

pub record ObjectMeta : Type 0 where
  pub name : Text
  pub namespace : Text
  pub uid : Text
  pub labels : TextMap
  pub annotations : TextMap
  pub owner_references : List OwnerReference
  pub creation_timestamp : Time
  pub deletion_timestamp : Option Time

-- meta.WasDeleted.
abbrev pub was_deleted : ObjectMeta → Bool
was_deleted m = elim m.deletion_timestamp [ none ↦ false | some _ ↦ true ]

pub data ConditionStatus : Type 0 where
  condition_true condition_false condition_unknown : ConditionStatus

pub record Condition : Type 0 where
  pub kind : Text
  pub status : ConditionStatus
  pub reason : Text
  pub message : Text
  pub last_transition_time : Time

abbrev pub is_condition_false : ConditionStatus → Bool
is_condition_false condition_false = true
is_condition_false _ = false

abbrev pub is_condition_unknown : ConditionStatus → Bool
is_condition_unknown condition_unknown = true
is_condition_unknown _ = false
