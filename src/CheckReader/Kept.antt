-- ===== src/CheckReader/Kept.antt =====
-- checkreader.go: what the role grants once the groups discovery failed on keep their rules.
use incident_controller.Prelude.{
  Text, Bool, true, false, not, ◌&&◌, ◌||◌, Option, List, [], ◌∷◌, ◌≡◌, refl, arith, text_eq,
  text_eq_iff, text_eq_refl,
}
use incident_controller.Api.Rbac.{PolicyRule, ApiResourceList}
use incident_controller.Platform.{Platform}
use incident_controller.CheckReader.Rules.{
  rules, by_group, with_kept, keep_rules, keep_groups, keep_resources, first_group, discovered,
  excluded, add_resource, put_resources, contains, GroupMap,
}
use incident_controller.CheckReader.Grants.{
  grants, holds, offered, holds-add_resource, grants-rules, grants-sorted,
}
use incident_controller.CheckReader.Distinct.{
  keyed-put, keyed, groups_distinct, one_group, rules-groups_distinct,
}

-- What the role as it is adds for a group.
unfoldable pub kept : List PolicyRule → List PolicyRule → List Text → Text → Text → Bool
kept want current failed g x =
    contains failed g && not (discovered want g) && not (excluded x) && grants current g x

holds-put-unkeyed :
    (m : GroupMap) (g : Text) (v : List Text) (h x : Text)
    → keyed m g ≡ false
    → holds (put_resources m g v) h x ≡ (holds m h x || text_eq g h && contains v x)
unfolding holds put_resources keyed
holds-put-unkeyed [] g v h x f = ground arith
holds-put-unkeyed ((k, w) ∷ m) g v h x f = ground (arith, holds-put-unkeyed m g v h x)

pub contains-one_group :
    (gs : List Text) (h : Text) → one_group gs ≡ true → contains gs h ≡ text_eq (first_group gs) h
unfolding one_group contains
contains-one_group [] h o = ground arith
contains-one_group (g ∷ []) h o = ground arith
contains-one_group (g ∷ k ∷ gs) h o = ground arith

pub holds-by_group :
    (m : GroupMap) (want : List PolicyRule) (h x : Text)
    → groups_distinct want ≡ true
    → ((g : Text) → discovered want g ≡ true → keyed m g ≡ false)
    → holds (by_group m want) h x ≡ (holds m h x || grants want h x)
unfolding by_group grants groups_distinct discovered one_group contains
holds-by_group m [] h x d f = ground arith
holds-by_group m (rule ∷ rest) h x d f = ground (
  arith,
  holds-by_group (put_resources m (first_group rule.api_groups) rule.resources) rest h x
      (ground arith)
      (λ k e. ground (
        arith,
        keyed-put m (first_group rule.api_groups) rule.resources k,
        f k,
        text_eq_iff (first_group rule.api_groups) k,
      )),
  holds-put-unkeyed m (first_group rule.api_groups) rule.resources h x,
  f (first_group rule.api_groups),
  text_eq_refl (first_group rule.api_groups),
  contains-one_group rule.api_groups h,
)

holds-keep_resources :
    (m : GroupMap) (g : Text) (rs : List Text) (h x : Text)
    → holds (keep_resources m g rs) h x
      ≡ (holds m h x || text_eq g h && not (excluded x) && contains rs x)
unfolding keep_resources contains
holds-keep_resources m g [] h x = ground arith
holds-keep_resources m g (r ∷ rs) h x = ground (
  arith,
  holds-keep_resources m g rs h x,
  holds-keep_resources (add_resource m g r) g rs h x,
  holds-add_resource m g r h x,
  text_eq_iff r x,
)

holds-keep_groups :
    (want : List PolicyRule) (failed rs : List Text) (m : GroupMap) (gs : List Text) (h x : Text)
    → holds (keep_groups want failed rs m gs) h x ≡ (
        holds m h x
        || contains failed h
          && not (discovered want h)
          && not (excluded x)
          && (contains gs h && contains rs x))
unfolding keep_groups contains
holds-keep_groups want failed rs m [] h x = ground arith
holds-keep_groups want failed rs m (g ∷ gs) h x = ground (
  arith,
  holds-keep_groups want failed rs m gs h x,
  holds-keep_groups want failed rs (keep_resources m g rs) gs h x,
  holds-keep_resources m g rs h x,
  text_eq_iff g h,
)

pub holds-keep_rules :
    (want : List PolicyRule) (failed : List Text) (m : GroupMap) (current : List PolicyRule)
    (h x : Text)
    → holds (keep_rules want failed m current) h x ≡ (holds m h x || kept want current failed h x)
unfolding keep_rules kept grants
holds-keep_rules want failed m [] h x = ground arith
holds-keep_rules want failed m (rule ∷ rest) h x = ground (
  arith,
  holds-keep_rules want failed (keep_groups want failed rule.resources m rule.api_groups) rest h x,
  holds-keep_groups want failed rule.resources m rule.api_groups h x,
)

-- The rules after withKept grant what discovery wants, and what the role as it is grants in a
-- group that discovery failed on and found nothing in, but for secrets.
pub grants-with_kept :
    (want current : List PolicyRule) (failed : List Text) (h x : Text)
    → groups_distinct want ≡ true
    → grants (with_kept want current failed) h x ≡ (grants want h x || kept want current failed h x)
unfolding with_kept kept contains holds keyed
grants-with_kept want current [] h x d = ground arith
grants-with_kept want current (f ∷ failed) h x d = ground (
  arith,
  grants-sorted (keep_rules want (f ∷ failed) (by_group [] want) current) h x,
  holds-keep_rules want (f ∷ failed) (by_group [] want) current h x,
  holds-by_group [] want h x d (λ g e. refl),
)

module _ ⦃p : Platform⦄ where
  -- The role written grants a resource of a group exactly when discovery offers it to be read, or
  -- when discovery failed on the group, found nothing in it, and the role as it is grants the
  -- resource, which is not secrets.
  pub grants-rules-with_kept :
      (ls : List (Option ApiResourceList)) (current : List PolicyRule) (failed : List Text)
      (h x : Text)
      → grants (with_kept (rules ls) current failed) h x
        ≡ (offered ls h x || kept (rules ls) current failed h x)
  grants-rules-with_kept ls current failed h x = ground (
    arith,
    grants-with_kept (rules ls) current failed h x (rules-groups_distinct ls),
    grants-rules ls h x,
  )
