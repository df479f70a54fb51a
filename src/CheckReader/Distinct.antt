-- ===== src/CheckReader/Distinct.antt =====
-- checkreader.go: the rules of Rules have one group each, and no two the same.
use incident_controller.Prelude.{
  ◌∙◌, Text, Bool, true, false, not, ◌&&◌, ◌||◌, Option, none, some, List, [], ◌∷◌, ◌++◌, ◌≡◌, refl,
  arith, text_eq, text_eq_iff,
}
use incident_controller.Api.Rbac.{PolicyRule, ApiResource, ApiResourceList}
use incident_controller.Platform.{Platform}
use incident_controller.CheckReader.Rules.{
  rules, add_lists, sorted, rules_in_order, sort_groups, insert_group, add_parsed, first_group,
  discovered, add_resources, add_resource, put_resources, GroupMap, resources_of,
}

-- The map has an entry for the key.
unfoldable pub keyed : GroupMap → Text → Bool
keyed [] g = false
keyed ((k, v) ∷ m) g = text_eq k g || keyed m g

-- No key has two entries.
unfoldable pub keys_distinct : GroupMap → Bool
keys_distinct [] = true
keys_distinct ((k, v) ∷ m) = not (keyed m k) && keys_distinct m

unfoldable pub one_group : List Text → Bool
one_group [] = false
one_group (g ∷ []) = true
one_group (g ∷ h ∷ gs) = false

-- Every rule has one group, and no two rules have the same.
unfoldable pub groups_distinct : List PolicyRule → Bool
groups_distinct [] = true
groups_distinct (rule ∷ rest) =
    one_group rule.api_groups
    && not (discovered rest (first_group rule.api_groups))
    && groups_distinct rest

pub keyed-put :
    (m : GroupMap) (g : Text) (v : List Text) (h : Text)
    → keyed (put_resources m g v) h ≡ (text_eq g h || keyed m h)
unfolding keyed put_resources
keyed-put [] g v h = ground arith
keyed-put ((k, w) ∷ m) g v h = ground (arith, keyed-put m g v h, text_eq_iff k g)

pub put-keys_distinct :
    (m : GroupMap) (g : Text) (v : List Text)
    → keys_distinct m ≡ true
    → keys_distinct (put_resources m g v) ≡ true
unfolding keyed keys_distinct put_resources
put-keys_distinct [] g v d = ground arith
put-keys_distinct ((k, w) ∷ m) g v d =
    ground (arith, put-keys_distinct m g v, keyed-put m g v k, text_eq_iff k g, text_eq_iff g k)

add_resource-keys_distinct :
    (m : GroupMap) (g n : Text) → keys_distinct m ≡ true → keys_distinct (add_resource m g n) ≡ true
unfolding add_resource
add_resource-keys_distinct m g n d =
    ground (arith, put-keys_distinct m g (resources_of m g ++ n ∷ []) d)

add_resources-keys_distinct :
    (m : GroupMap) (g : Text) (rs : List ApiResource)
    → keys_distinct m ≡ true
    → keys_distinct (add_resources m g rs) ≡ true
unfolding add_resources
add_resources-keys_distinct m g [] d = d
add_resources-keys_distinct m g (res ∷ rest) d = ground (
  arith,
  add_resources-keys_distinct m g rest d,
  add_resources-keys_distinct (add_resource m g res.name) g rest,
  add_resource-keys_distinct m g res.name d,
)

keyed-insert_group :
    (g : Text) (v : List Text) (m : GroupMap) (h : Text)
    → keyed (insert_group g v m) h ≡ (text_eq g h || keyed m h)
unfolding insert_group keyed
keyed-insert_group g v [] h = refl
keyed-insert_group g v ((k, w) ∷ m) h = ground (arith, keyed-insert_group g v m h)

pub keyed-sort_groups : (m : GroupMap) (h : Text) → keyed (sort_groups m) h ≡ keyed m h
unfolding sort_groups keyed
keyed-sort_groups [] h = refl
keyed-sort_groups ((g, v) ∷ m) h =
    ground (arith, keyed-insert_group g v (sort_groups m) h, keyed-sort_groups m h)

insert_group-keys_distinct :
    (g : Text) (v : List Text) (m : GroupMap)
    → keyed m g ≡ false
    → keys_distinct m ≡ true
    → keys_distinct (insert_group g v m) ≡ true
unfolding insert_group keyed keys_distinct
insert_group-keys_distinct g v [] k d = ground arith
insert_group-keys_distinct g v ((k, w) ∷ m) f d = ground (
  arith,
  insert_group-keys_distinct g v m,
  keyed-insert_group g v m k,
  text_eq_iff k g,
  text_eq_iff g k,
)

sort_groups-keys_distinct :
    (m : GroupMap) → keys_distinct m ≡ true → keys_distinct (sort_groups m) ≡ true
unfolding sort_groups keys_distinct
sort_groups-keys_distinct [] d = d
sort_groups-keys_distinct ((g, v) ∷ m) d = ground (
  arith,
  sort_groups-keys_distinct m,
  insert_group-keys_distinct g v (sort_groups m),
  keyed-sort_groups m g,
)

discovered-rules_in_order : (m : GroupMap) (g : Text) → discovered (rules_in_order m) g ≡ keyed m g
unfolding rules_in_order discovered keyed
discovered-rules_in_order [] g = refl
discovered-rules_in_order ((k, v) ∷ m) g = ground (arith, discovered-rules_in_order m g)

rules_in_order-groups_distinct :
    (m : GroupMap) → groups_distinct (rules_in_order m) ≡ keys_distinct m
unfolding rules_in_order groups_distinct keys_distinct one_group
rules_in_order-groups_distinct [] = refl
rules_in_order-groups_distinct ((k, v) ∷ m) =
    ground (arith, discovered-rules_in_order m k, rules_in_order-groups_distinct m)

pub sorted-groups_distinct :
    (m : GroupMap) → keys_distinct m ≡ true → groups_distinct (sorted m) ≡ true
unfolding sorted
sorted-groups_distinct m d =
    rules_in_order-groups_distinct (sort_groups m) ∙ sort_groups-keys_distinct m d

module _ ⦃p : Platform⦄ where
  add_parsed-keys_distinct :
      (m : GroupMap) (g : Option Text) (rs : List ApiResource)
      → keys_distinct m ≡ true
      → keys_distinct (add_parsed m g rs) ≡ true
  add_parsed-keys_distinct m none rs d = d
  add_parsed-keys_distinct m (some g) rs d = add_resources-keys_distinct m g rs d

  add_lists-keys_distinct :
      (m : GroupMap) (ls : List (Option ApiResourceList))
      → keys_distinct m ≡ true
      → keys_distinct (add_lists m ls) ≡ true
  unfolding add_lists
  add_lists-keys_distinct m [] d = d
  add_lists-keys_distinct m (none ∷ ls) d = add_lists-keys_distinct m ls d
  add_lists-keys_distinct m (some l ∷ ls) d =
      add_lists-keys_distinct (add_parsed m (p.parse_group_version l.group_version) l.api_resources)
        ls (add_parsed-keys_distinct m (p.parse_group_version l.group_version) l.api_resources d)

  pub rules-groups_distinct :
      (ls : List (Option ApiResourceList)) → groups_distinct (rules ls) ≡ true
  unfolding rules keys_distinct
  rules-groups_distinct ls =
      sorted-groups_distinct (add_lists [] ls) (add_lists-keys_distinct [] ls refl)
