-- ===== src/Tests/Library.antt =====
-- A platform that meets the assumptions of Platform, and an apiserver that answers every call.
use incident_controller.Prelude.{
  ◌==◌, ◌*◌, ◌/◌, ◌+◌, ◌≤◌, ◌<◌, ℤ, Text, Bool, true, false, Option, none, some, List, [], ◌∷◌, ◌≡◌,
  ◌≢◌, ◌↔◌, refl, arith, bytes, text_eq, text_eq_iff, text_eq_refl, if◌then◌else◌, ℕ_discrete,
}
use incident_controller.Api.Meta.{
  Time, second, Condition, ConditionStatus, condition_true, condition_false, condition_unknown,
}
use incident_controller.Api.Incident.{IncidentStatus}
use incident_controller.Api.Rbac.{PolicyRule}
use incident_controller.Platform.{Platform}
use incident_controller.CheckReader.Rules.{has_slash}
use incident_controller.Server.{not_found, fault, Server, found}

abbrev pub to_bool {ℓ} : {A : Type ℓ} → Dec A → Bool
to_bool (yes _) = true
to_bool (no _) = false

pub to_bool_iff {ℓ} : {A : Type ℓ} (d : Dec A) → (to_bool d ≡ true) ↔ A
to_bool_iff (yes a) = (λ _. a, λ _. refl)
to_bool_iff (no n) = (λ e. cc, λ a. absurd (n a))

unfoldable pub exit_discrete : Discrete (Option ℤ)
exit_discrete = hlevel ℕ_discrete

unfoldable pub status_discrete : Discrete IncidentStatus
status_discrete = hlevel ℕ_discrete

unfoldable pub rules_discrete : Discrete (List PolicyRule)
rules_discrete = hlevel ℕ_discrete

unfoldable pub get_condition : List Condition → Text → ConditionStatus
get_condition [] kind = condition_unknown
get_condition (c ∷ cs) kind = if text_eq c.kind kind then c.status else get_condition cs kind

unfoldable pub set_conditions : List Condition → Condition → List Condition
set_conditions [] c = c ∷ []
set_conditions (d ∷ ds) c = if text_eq d.kind c.kind then c ∷ ds else d ∷ set_conditions ds c

pub get-set_self :
    (cs : List Condition) (c : Condition) → get_condition (set_conditions cs c) c.kind ≡ c.status
unfolding get_condition set_conditions
get-set_self [] c = ground (arith, text_eq_refl c.kind)
get-set_self (d ∷ ds) c = ground (arith, text_eq_refl c.kind, get-set_self ds c)

pub get-set_ne :
    (cs : List Condition) (c : Condition) (kind : Text)
    → kind ≢ c.kind
    → get_condition (set_conditions cs c) kind ≡ get_condition cs kind
unfolding get_condition set_conditions
get-set_ne [] c kind h = ground (arith, text_eq_iff c.kind kind)
get-set_ne (d ∷ ds) c kind h =
    ground (arith, text_eq_iff c.kind kind, text_eq_iff d.kind c.kind, get-set_ne ds c kind h)

unfoldable pub before_slash : Text → Text
before_slash [] = []
before_slash (c ∷ s) = if c == 0x2f then [] else c ∷ before_slash s

unfoldable pub truncated : Time → Time
truncated t = t / second * second

pub truncated-le : (t : Time) → truncated t ≤ t
unfolding truncated
truncated-le t = omega arith

pub truncated_within : (t : Time) → t < truncated t + second
unfolding truncated
truncated_within t = omega arith

pub truncated_mono : (t u : Time) → t ≤ u → truncated t ≤ truncated u
unfolding truncated
truncated_mono t u h = omega arith

pub truncated_idem : (t : Time) → truncated (truncated t) ≡ truncated t
unfolding truncated
truncated_idem t = omega arith

abbrev pub ready_condition : ConditionStatus → Condition
ready_condition s = record {
  kind = bytes "Ready";
  status = s;
  reason = [];
  message = [];
  last_transition_time = 0;
}

instance abbrev pub platform : Platform
platform = record {
  rfc3339_copy = truncated;
  rfc3339_copy_le = truncated-le;
  rfc3339_copy_within = truncated_within;
  rfc3339_copy_mono = truncated_mono;
  rfc3339_copy_idem = truncated_idem;
  ptr_equal = λ a b. to_bool (exit_discrete a b);
  ptr_equal_iff = λ a b. to_bool_iff (exit_discrete a b);
  deep_equal = λ s t. to_bool (status_discrete s t);
  deep_equal_iff = λ s t. to_bool_iff (status_discrete s t);
  rules_equal = λ s t. to_bool (rules_discrete s t);
  rules_equal_iff = λ s t. to_bool_iff (rules_discrete s t);
  parse_group_version = λ s. some (if has_slash s then before_slash s else []);
  duration_text = λ d. [];
  get_condition = get_condition;
  set_conditions = set_conditions;
  get-set_conditions_self = get-set_self;
  get-set_conditions_ne = get-set_ne;
  available = ready_condition condition_true;
  available_kind = refl;
  deleting = ready_condition condition_false;
  deleting_kind = refl;
  create_incomplete = λ m. false;
}

-- Every list is empty, and every call succeeds.
instance abbrev pub server : Server
server = record {
  list_pods = λ h namespace labels. found [];
  list_config_maps = λ h namespace labels. found [];
  get_pod = λ h namespace name. fault not_found;
  get_incident = λ h namespace name. fault not_found;
  write_status = λ h inc. found inc;
  write_incident = λ h inc. found inc;
  write_apply = λ h base ia. found ia;
  write_pod = λ h pod. found pod;
  write = λ h c. none;
}
