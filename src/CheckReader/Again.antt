-- ===== src/CheckReader/Again.antt =====
-- checkreader.go: a refresh from what the refresh before was discovered writes nothing.
use incident_controller.Prelude.{
  Text, true, false, ◌||◌, Option, none, List, [], ◌∷◌, ◌≡◌, refl, arith,
}
use incident_controller.Api.Rbac.{PolicyRule, ApiResourceList}
use incident_controller.Platform.{Platform}
use incident_controller.Server.{Fault, found}
use incident_controller.CheckReader.Rules.{
  GroupMap, rules, sorted, by_group, discovered, keep_rules, with_kept,
}
use incident_controller.CheckReader.Grants.{grants, holds, grants-sorted}
use incident_controller.CheckReader.Distinct.{
  groups_distinct, rules-groups_distinct, keys_distinct, keyed,
}
use incident_controller.CheckReader.Kept.{
  kept, holds-by_group, holds-keep_rules, contains-one_group,
}
use incident_controller.CheckReader.Canonical.{sound}
use incident_controller.CheckReader.Settled.{sorted-ext}
use incident_controller.CheckReader.Sound.{
  fine, keep_rules-fine, by_group-fine, rules-rules_sound, rules_sound,
}
use incident_controller.CheckReader.Sync.{
  Discovery, complete, partial, failed, sync, sync-rules, rules_after, lists_of, failed_of,
  refresh_from,
}

undiscovered-grants :
    (want : List PolicyRule) (h x : Text)
    → groups_distinct want ≡ true
    → discovered want h ≡ false
    → grants want h x ≡ false
unfolding groups_distinct discovered grants
undiscovered-grants [] h x d n = refl
undiscovered-grants (rule ∷ rest) h x d n =
    ground (arith, undiscovered-grants rest h x, contains-one_group rule.api_groups h)

module _ (want current : List PolicyRule) (groups : List Text)
    (single : groups_distinct want ≡ true) (whole : rules_sound want ≡ true) where
  abbrev kept_map : List PolicyRule → GroupMap
  kept_map now = keep_rules want groups (by_group [] want) now

  kept_map-fine : (now : List PolicyRule) → fine (kept_map now) ≡ true
  unfolding fine keys_distinct sound
  kept_map-fine now =
      keep_rules-fine want groups (by_group [] want) now (by_group-fine [] want whole refl)

  holds-kept_map :
      (now : List PolicyRule) (h x : Text)
      → holds (kept_map now) h x ≡ (grants want h x || kept want now groups h x)
  unfolding holds keyed
  holds-kept_map now h x = ground (
    arith,
    holds-keep_rules want groups (by_group [] want) now h x,
    holds-by_group [] want h x single (λ g e. refl),
  )

  -- What withKept keeps of its own rules is what it kept.
  kept_again :
      (h x : Text) → holds (kept_map (sorted (kept_map current))) h x ≡ holds (kept_map current) h x
  unfolding kept
  kept_again h x = ground (
    arith,
    holds-kept_map (sorted (kept_map current)) h x,
    holds-kept_map current h x,
    grants-sorted (kept_map current) h x,
    undiscovered-grants want h x single,
  )

  sorted_again : sorted (kept_map (sorted (kept_map current))) ≡ sorted (kept_map current)
  unfolding fine
  sorted_again =
      let f = kept_map-fine current in
      let g = kept_map-fine (sorted (kept_map current)) in
      sorted-ext (kept_map (sorted (kept_map current))) (kept_map current) (ground arith)
        (ground arith) (ground arith) (ground arith) kept_again

with_kept_again :
    (want current : List PolicyRule) (groups : List Text)
    → groups_distinct want ≡ true
    → rules_sound want ≡ true
    → with_kept want (with_kept want current groups) groups ≡ with_kept want current groups
unfolding with_kept
with_kept_again want current [] d s = refl
with_kept_again want current (f ∷ groups) d s = sorted_again want current (f ∷ groups) d s

module _ ⦃p : Platform⦄ where
  refresh_from_again :
      (role : Text) (lists : List (Option ApiResourceList)) (groups : List Text)
      (current : List PolicyRule) (update : List PolicyRule → Option Fault)
      → refresh_from role lists groups (found (with_kept (rules lists) current groups)) update
        ≡ record { written = none; error = none }
  refresh_from_again role lists groups current update = ground (
    arith,
    with_kept_again (rules lists) current groups (rules-groups_distinct lists)
        (rules-rules_sound lists),
    p.rules_equal_iff (with_kept (rules lists) current groups)
        (with_kept (rules lists) current groups),
  )

  -- After a refresh that returns no error, another one that discovers the same, and finds the role
  -- as that one left it, writes nothing and returns no error.
  pub sync_again :
      (role : Text) (d : Discovery) (current : List PolicyRule)
      (update update' : List PolicyRule → Option Fault)
      → (sync role d (found current) update).error ≡ none
      → sync role d
          (found (rules_after current (sync role d (found current) update).written))
          update'
        ≡ record { written = none; error = none }
  unfolding sync lists_of failed_of
  sync_again role (complete lists) current update update' e =
      rw (sync-rules role (complete lists) current update e)
        (refresh_from_again role lists [] current update')
  sync_again role (partial lists groups) current update update' e =
      rw (sync-rules role (partial lists groups) current update e)
        (refresh_from_again role lists groups current update')
  sync_again role (failed t) current update update' e = ground arith
