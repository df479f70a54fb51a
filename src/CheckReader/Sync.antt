-- ===== src/CheckReader/Sync.antt =====
-- checkreader.go: one refresh of the role from discovery.
use incident_controller.Prelude.{
  Bool, if◌then◌else◌, Text, true, false, ◌||◌, Option, none, some, List, [], ◌∷◌, ◌≡◌, refl, arith,
  text_eq_iff,
}
use incident_controller.Api.Rbac.{PolicyRule, ApiResource, ApiResourceList}
use incident_controller.Platform.{Platform}
use incident_controller.Server.{
  Fault, Fetched, found, fault, not_found, already_exists, no_match, other,
}
use incident_controller.CheckReader.Rules.{rules, with_kept, excluded, readable}
use incident_controller.CheckReader.Grants.{grants, offered, offers, offers_parsed}
use incident_controller.CheckReader.Kept.{kept, grants-rules-with_kept}

-- What ServerGroupsAndResources answers: the lists, with the groups of ErrGroupDiscoveryFailed
-- where there is one, or any other error.
pub data Discovery : Type 0 where
  complete : List (Option ApiResourceList) → Discovery
  partial : List (Option ApiResourceList) → List Text → Discovery
  failed : Text → Discovery

pub data SyncError : Type 0 where
  discovery_failed : Text → SyncError
  no_role : Text → SyncError
  role_not_read role_not_written : Fault → SyncError

-- What a refresh writes, where it does, and the error it returns.
pub record Refresh : Type 0 where
  pub written : Option (List PolicyRule)
  pub error : Option SyncError

abbrev role_error : Text → Fault → SyncError
role_error role not_found = no_role role
role_error role already_exists = role_not_read already_exists
role_error role no_match = role_not_read no_match
role_error role (other t) = role_not_read (other t)

abbrev write_error : Option Fault → Option SyncError
write_error none = none
write_error (some f) = some (role_not_written f)

abbrev stopped : SyncError → Refresh
stopped e = record { written = none; error = some e }

module _ ⦃p : Platform⦄ where
  -- `update` is what the apiserver answers to the role with these rules.
  abbrev write_rules :
      List PolicyRule → List PolicyRule → (List PolicyRule → Option Fault) → Refresh
  write_rules current want update =
      if p.rules_equal current want
      then record { written = none; error = none }
      else record { written = some want; error = write_error (update want) }

  abbrev pub refresh_from :
      Text
      → List (Option ApiResourceList)
      → List Text
      → Fetched (List PolicyRule)
      → (List PolicyRule → Option Fault)
      → Refresh
  refresh_from role lists groups (fault f) update = stopped (role_error role f)
  refresh_from role lists groups (found current) update =
      write_rules current (with_kept (rules lists) current groups) update

  unfoldable pub sync :
      Text → Discovery → Fetched (List PolicyRule) → (List PolicyRule → Option Fault) → Refresh
  sync role (failed e) read update = stopped (discovery_failed e)
  sync role (complete lists) read update = refresh_from role lists [] read update
  sync role (partial lists groups) read update = refresh_from role lists groups read update

unfoldable pub lists_of : Discovery → List (Option ApiResourceList)
lists_of (complete lists) = lists
lists_of (partial lists groups) = lists
lists_of (failed e) = []

unfoldable pub failed_of : Discovery → List Text
failed_of (complete lists) = []
failed_of (partial lists groups) = groups
failed_of (failed e) = []

-- The rules of the role after a refresh without an error.
pub rules_after : List PolicyRule → Option (List PolicyRule) → List PolicyRule
rules_after current none = current
rules_after current (some want) = want

module _ ⦃p : Platform⦄ where
  refresh_from-rules :
      (role : Text) (lists : List (Option ApiResourceList)) (groups : List Text)
      (current : List PolicyRule) (update : List PolicyRule → Option Fault)
      → rules_after current (refresh_from role lists groups (found current) update).written
        ≡ with_kept (rules lists) current groups
  unfolding rules_after
  refresh_from-rules role lists groups current update =
      ground (arith, (p.rules_equal_iff current (with_kept (rules lists) current groups)).0)

  pub sync-rules :
      (role : Text) (d : Discovery) (current : List PolicyRule)
      (update : List PolicyRule → Option Fault)
      → (sync role d (found current) update).error ≡ none
      → rules_after current (sync role d (found current) update).written
        ≡ with_kept (rules (lists_of d)) current (failed_of d)
  unfolding sync lists_of failed_of
  sync-rules role (complete lists) current update e =
      refresh_from-rules role lists [] current update
  sync-rules role (partial lists groups) current update e =
      refresh_from-rules role lists groups current update
  sync-rules role (failed t) current update e = ground arith

  -- What a refresh leaves named in the rules: what discovery offered to be read, and, of a group
  -- that discovery failed on and found nothing in, what the role named before, but for secrets.
  abbrev pub named_after : Discovery → List PolicyRule → Text → Text → Bool
  named_after d current g x =
      offered (lists_of d) g x || kept (rules (lists_of d)) current (failed_of d) g x

  pub sync-grants :
      (role : Text) (d : Discovery) (current : List PolicyRule)
      (update : List PolicyRule → Option Fault) (g x : Text)
      → (sync role d (found current) update).error ≡ none
      → grants (rules_after current (sync role d (found current) update).written) g x
        ≡ named_after d current g x
  sync-grants role d current update g x e = ground (
    arith,
    sync-rules role d current update e,
    grants-rules-with_kept (lists_of d) current (failed_of d) g x,
  )

offers-excluded : (rs : List ApiResource) (x : Text) → excluded x ≡ true → offers rs x ≡ false
unfolding offers readable
offers-excluded [] x e = refl
offers-excluded (res ∷ rest) x e = ground (arith, offers-excluded rest x e, text_eq_iff res.name x)

module _ ⦃p : Platform⦄ where
  offers_parsed-excluded :
      (g : Option Text) (rs : List ApiResource) (h x : Text)
      → excluded x ≡ true
      → offers_parsed g rs h x ≡ false
  offers_parsed-excluded none rs h x e = refl
  offers_parsed-excluded (some g) rs h x e = ground (arith, offers-excluded rs x e)

  pub offered-excluded :
      (ls : List (Option ApiResourceList)) (h x : Text) → excluded x ≡ true → offered ls h x ≡ false
  unfolding offered
  offered-excluded [] h x e = refl
  offered-excluded (none ∷ ls) h x e = offered-excluded ls h x e
  offered-excluded (some l ∷ ls) h x e = ground (
    arith,
    offers_parsed-excluded (p.parse_group_version l.group_version) l.api_resources h x e,
    offered-excluded ls h x e,
  )
