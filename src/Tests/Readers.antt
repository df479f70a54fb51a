-- ===== src/Tests/Readers.antt =====
-- The theorems about the check reader role, at inputs.
use incident_controller.Prelude.{
  All, true, text_eq, text_ltb, ◌≡◌, Text, false, Option, none, some, List, [], ◌∷◌, refl, bytes,
}
use incident_controller.Api.Rbac.{PolicyRule, ApiResourceList}
use incident_controller.Server.{found, not_found}
use incident_controller.CheckReader.Rules.{
  keep_rules, keep_groups, keep_resources, discovered, by_group, rules_in_order, sort_groups,
  insert_group, sort_texts, insert_text, add_resources, readable, has_slash, excluded, add_resource,
  contains, put_resources, resources_of, add_lists, rules, with_kept, read_verbs, sorted,
}
use incident_controller.CheckReader.Grants.{offers, grants, offered}
use incident_controller.CheckReader.Sync.{Discovery, partial, failed, sync, rules_after, lists_of}
use incident_controller.CheckReader.Again.{sync_again}
use incident_controller.CheckReader.Refresher.{
  Discovers, Round, refresh_all, refresh_all-no_secrets,
}
use incident_controller.Tests.Library.{before_slash, rules_discrete, platform}
use incident_controller.CheckReader.Allowed.{wildcard, allows}

abbrev core : Option ApiResourceList
core = some (record {
  group_version = bytes "v1";
  api_resources =
      record { name = bytes "pods"; verbs = bytes "list" ∷ [] }
      ∷ record { name = bytes "secrets"; verbs = bytes "get" ∷ [] }
      ∷ record { name = bytes "pods/log"; verbs = bytes "get" ∷ [] }
      ∷ [];
})

abbrev metrics : Discovery
metrics = partial (core ∷ none ∷ []) (bytes "metrics.k8s.io" ∷ [])

abbrev role_rules : List PolicyRule
role_rules =
    record {
      api_groups = bytes "metrics.k8s.io" ∷ [];
      resources = bytes "nodes" ∷ bytes "secrets" ∷ [];
      verbs = bytes "get" ∷ [];
    }
    ∷ []

abbrev role_name : Text
role_name = bytes "check-reader"

-- What the tests below compute with.
reading : Unit {0}
unfolding bytes text_eq sync rules with_kept add_lists resources_of put_resources contains
    add_resource excluded has_slash readable add_resources text_ltb insert_text sort_texts
    insert_group sort_groups read_verbs rules_in_order sorted by_group discovered keep_resources
    keep_groups keep_rules rules_discrete before_slash
reading = tt

reader_written :
    (sync role_name metrics (found role_rules) (λ want. none)).written
    ≡ some (
        record { api_groups = [] ∷ []; resources = bytes "pods" ∷ []; verbs = read_verbs }
        ∷ record {
          api_groups = bytes "metrics.k8s.io" ∷ [];
          resources = bytes "nodes" ∷ [];
          verbs = read_verbs;
        }
        ∷ [])
unfolding reading
reader_written = refl

reader_ok : (sync role_name metrics (found role_rules) (λ want. none)).error ≡ none
unfolding reading
reader_ok = refl

sync_again_example :
    sync role_name metrics
      (found
        (rules_after role_rules (sync role_name metrics (found role_rules) (λ want. none)).written))
      (λ want. some not_found)
    ≡ record { written = none; error = none }
sync_again_example =
    sync_again role_name metrics role_rules (λ want. none) (λ want. some not_found) reader_ok

-- A write that fails, and a discovery that does.
abbrev rounds : List Round
rounds =
    record { discovery = metrics; read = none; answer = λ want. some not_found; lands = true }
    ∷ record {
      discovery = failed (bytes "no route to host");
      read = none;
      answer = λ want. none;
      lands = false;
    }
    ∷ []

rounds_leave :
    refresh_all role_name [] rounds
    ≡ record { api_groups = [] ∷ []; resources = bytes "pods" ∷ []; verbs = read_verbs } ∷ []
unfolding reading refresh_all
rounds_leave = refl

-- The lists name pods and the like, in whatever group.
metrics-offered : (g : Text) → offered (lists_of metrics) g wildcard ≡ false
unfolding reading lists_of offered offers wildcard
metrics-offered [] = refl
metrics-offered (c ∷ g) = refl

rounds_discover : All Discovers rounds
unfolding lists_of offered
rounds_discover = (metrics-offered, (λ g. refl, tt))

refresh_all-no_secrets_example :
    allows (refresh_all role_name [] rounds) (bytes "get") (bytes "") (bytes "secrets") ≡ false
unfolding grants
refresh_all-no_secrets_example =
    refresh_all-no_secrets role_name rounds [] (bytes "get") (bytes "") (λ h. (refl, refl))
      rounds_discover
