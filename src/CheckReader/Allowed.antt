-- ===== src/CheckReader/Allowed.antt =====
-- What a ClusterRole allows, as Kubernetes RBAC reads it: a rule allows a verb on a resource of a
-- group if it lists each of them, or the wildcard in its place.
use incident_controller.Prelude.{
  Option, Text, Bool, false, ◌&&◌, ◌||◌, List, [], ◌∷◌, ◌≡◌, refl, arith, bytes, text_eq,
}
use incident_controller.Api.Rbac.{PolicyRule, ApiResourceList}
use incident_controller.Platform.{Platform}
use incident_controller.CheckReader.Rules.{
  rules, sorted, rules_in_order, with_kept, contains, read_verbs, GroupMap,
}
use incident_controller.CheckReader.Grants.{grants}

unfoldable pub wildcard : Text
unfolding bytes
wildcard = bytes "*"

abbrev pub lists_or_any : List Text → Text → Bool
lists_or_any l x = contains l x || contains l wildcard

unfoldable pub allows : List PolicyRule → Text → Text → Text → Bool
allows [] verb g x = false
allows (rule ∷ rest) verb g x =
    lists_or_any rule.verbs verb
      && (lists_or_any rule.api_groups g && lists_or_any rule.resources x)
    || allows rest verb g x

-- What is named for the resource or the wildcard, and for the group or the wildcard.
abbrev pub or_any : (Text → Text → Bool) → Text → Text → Bool
or_any named g x = (named g x || named g wildcard) || (named wildcard x || named wildcard wildcard)

-- What is allowed is granted by some rule.
pub allows-grants :
    (rs : List PolicyRule) (verb g x : Text)
    → or_any (grants rs) g x ≡ false
    → allows rs verb g x ≡ false
unfolding allows grants
allows-grants [] verb g x h = refl
allows-grants (rule ∷ rest) verb g x h = ground (arith, allows-grants rest verb g x)

-- The verbs that read, and only those, are allowed by a rule that lists them.
abbrev pub reads : Text → Bool
reads verb =
    text_eq (bytes "get") verb || (text_eq (bytes "list") verb || text_eq (bytes "watch") verb)

no_wildcard : contains read_verbs wildcard ≡ false
unfolding contains read_verbs text_eq bytes wildcard
no_wildcard = refl

read_verbs-reads : (verb : Text) → lists_or_any read_verbs verb ≡ reads verb
unfolding contains read_verbs
read_verbs-reads verb = ground (arith, no_wildcard)

allows-rules_in_order :
    (m : GroupMap) (verb g x : Text)
    → allows (rules_in_order m) verb g x ≡ (reads verb && or_any (grants (rules_in_order m)) g x)
unfolding rules_in_order allows grants
allows-rules_in_order [] verb g x = ground arith
allows-rules_in_order ((k, v) ∷ m) verb g x =
    ground (arith, read_verbs-reads verb, allows-rules_in_order m verb g x)

allows-sorted :
    (m : GroupMap) (verb g x : Text)
    → allows (sorted m) verb g x ≡ (reads verb && or_any (grants (sorted m)) g x)
unfolding sorted
allows-sorted m verb g x = allows-rules_in_order _ verb g x

module _ ⦃p : Platform⦄ where
  pub allows-with_kept :
      (lists : List (Option ApiResourceList)) (current : List PolicyRule) (groups : List Text)
      (verb g x : Text)
      → allows (with_kept (rules lists) current groups) verb g x
        ≡ (reads verb && or_any (grants (with_kept (rules lists) current groups)) g x)
  unfolding with_kept rules
  allows-with_kept lists current [] verb g x = allows-sorted _ verb g x
  allows-with_kept lists current (f ∷ groups) verb g x = allows-sorted _ verb g x
