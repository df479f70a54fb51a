-- ===== src/CheckReader/Refresher.antt =====
-- checkreader.go: the loop of Setup, which refreshes the role at start and then every interval.
use incident_controller.Prelude.{
  All, Text, Bool, false, Option, none, some, List, [], ◌∷◌, ◌≡◌, arith, bytes, if◌then◌else◌,
  text_eq_refl,
}
use incident_controller.Api.Rbac.{PolicyRule, ApiResourceList}
use incident_controller.Platform.{Platform}
use incident_controller.Server.{Fault, Fetched, found, fault}
use incident_controller.CheckReader.Rules.{rules, with_kept, excluded}
use incident_controller.CheckReader.Allowed.{allows, wildcard, allows-grants}
use incident_controller.CheckReader.Grants.{grants, offered}
use incident_controller.CheckReader.Kept.{kept, grants-rules-with_kept}
use incident_controller.CheckReader.Sync.{
  lists_of, Discovery, complete, partial, failed, Refresh, sync, refresh_from, offered-excluded,
}

-- What one round of the loop meets: discovery, the read of the role, the answers to the write, and
-- whether a write that is answered with an error has changed the role all the same.
pub record Round : Type 0 where
  pub discovery : Discovery
  pub read : Option Fault
  pub answer : List PolicyRule → Option Fault
  pub lands : Bool

abbrev read_of : Option Fault → List PolicyRule → Fetched (List PolicyRule)
read_of none current = found current
read_of (some f) current = fault f

-- The rules that the role has after a refresh.
abbrev rules_left : List PolicyRule → Bool → Refresh → List PolicyRule
rules_left current lands r = elim r.written [
  | none ↦ current
  | some want ↦ elim r.error [ none ↦ want | some e ↦ if lands then want else current ]
]

module _ ⦃p : Platform⦄ where
  -- An error is logged, and the loop goes on.
  unfoldable pub refresh_all : Text → List PolicyRule → List Round → List PolicyRule
  unfolding sync
  refresh_all role current [] = current
  refresh_all role current (r ∷ rounds) =
      refresh_all role
        (rules_left current r.lands (sync role r.discovery (read_of r.read current) r.answer))
        rounds

  -- No rule names secrets for the group, nor the wildcard, which would include them.
  abbrev pub NamesNone : Text → List PolicyRule → Type 0
  NamesNone g rs = (grants rs g (bytes "secrets") ≡ false) × (grants rs g wildcard ≡ false)

  with_kept-NamesNone :
      (lists : List (Option ApiResourceList)) (current : List PolicyRule) (groups : List Text)
      (g : Text)
      → offered lists g wildcard ≡ false
      → NamesNone g current
      → NamesNone g (with_kept (rules lists) current groups)
  unfolding kept excluded
  with_kept-NamesNone lists current groups g o h = ground (
    arith,
    grants-rules-with_kept lists current groups g (bytes "secrets"),
    grants-rules-with_kept lists current groups g wildcard,
    offered-excluded lists g (bytes "secrets"),
    text_eq_refl (bytes "secrets"),
  )

  refresh_from-NamesNone :
      (role : Text) (lists : List (Option ApiResourceList)) (groups : List Text)
      (current : List PolicyRule) (r : Round) (g : Text)
      → offered lists g wildcard ≡ false
      → NamesNone g current
      → NamesNone g (
          rules_left current r.lands
            (refresh_from role lists groups (read_of r.read current) r.answer))
  refresh_from-NamesNone role lists groups current r g o h =
      ground (arith, with_kept-NamesNone lists current groups g o h)

  sync-NamesNone :
      (role : Text) (d : Discovery) (current : List PolicyRule) (r : Round) (g : Text)
      → offered (lists_of d) g wildcard ≡ false
      → NamesNone g current
      → NamesNone g (rules_left current r.lands (sync role d (read_of r.read current) r.answer))
  unfolding sync lists_of
  sync-NamesNone role (complete lists) current r g o h =
      refresh_from-NamesNone role lists [] current r g o h
  sync-NamesNone role (partial lists groups) current r g o h =
      refresh_from-NamesNone role lists groups current r g o h
  sync-NamesNone role (failed t) current r g o h = h

  -- No resource that discovery offers is called as the wildcard.
  abbrev pub Discovers : Round → Type 0
  Discovers r = (g : Text) → offered (lists_of r.discovery) g wildcard ≡ false

  refresh_all-NamesNone :
      (role : Text) (rounds : List Round) (current : List PolicyRule) (g : Text)
      → All Discovers rounds
      → NamesNone g current
      → NamesNone g (refresh_all role current rounds)
  unfolding refresh_all
  refresh_all-NamesNone role [] current g o h = h
  refresh_all-NamesNone role (r ∷ rounds) current g o h =
      refresh_all-NamesNone role rounds
        (rules_left current r.lands (sync role r.discovery (read_of r.read current) r.answer)) g o.1
        (sync-NamesNone role r.discovery current r g (o.0 g) h)

  -- A role whose rules name neither secrets nor "*" as a resource, as the one that the chart creates
  -- without rules, never allows any verb on secrets, in any group, as RBAC reads its rules: through
  -- any number of rounds, whichever of the reads and writes fail, and whatever discovery offers, as
  -- long as it offers no resource called "*".
  pub refresh_all-no_secrets :
      (role : Text) (rounds : List Round) (current : List PolicyRule) (verb g : Text)
      → ((h : Text) → NamesNone h current)
      → All Discovers rounds
      → allows (refresh_all role current rounds) verb g (bytes "secrets") ≡ false
  refresh_all-no_secrets role rounds current verb g n o =
      let here = refresh_all-NamesNone role rounds current g o (n g) in
      let anywhere = refresh_all-NamesNone role rounds current wildcard o (n wildcard) in
      allows-grants (refresh_all role current rounds) verb g (bytes "secrets") (ground arith)
