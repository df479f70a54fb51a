-- ===== src/CheckReader/Sound.antt =====
-- checkreader.go: the maps that Rules and withKept build have a key once, and each resource once.
use incident_controller.Prelude.{
  ◌∙◌, Text, Bool, true, false, ◌&&◌, Option, none, some, List, [], ◌∷◌, ◌++◌, ◌≡◌, refl, arith,
  text_eq_iff,
}
use incident_controller.Api.Rbac.{PolicyRule, ApiResource, ApiResourceList}
use incident_controller.Platform.{Platform}
use incident_controller.CheckReader.Rules.{
  contains, GroupMap, resources_of, put_resources, add_resource, add_resources, add_parsed,
  add_lists, rules, sorted, sort_groups, rules_in_order, sort_texts, insert_text, by_group,
  first_group, keep_resources, keep_groups, keep_rules,
}
use incident_controller.CheckReader.Grants.{
  contains-insert_text, contains-append, contains-sort_texts,
}
use incident_controller.CheckReader.Distinct.{keys_distinct, put-keys_distinct}
use incident_controller.CheckReader.Ordered.{distinct}
use incident_controller.CheckReader.Canonical.{
  is_filled, sound, sort_groups-sound, sort_texts-filled,
}

-- No key and, under a key, no resource stands twice, and no key is without a resource.
unfoldable pub fine : GroupMap → Bool
fine m = keys_distinct m && sound m

distinct-append :
    (xs : List Text) (x : Text)
    → contains xs x ≡ false
    → distinct xs ≡ true
    → distinct (xs ++ x ∷ []) ≡ true
unfolding distinct contains
distinct-append [] x c d = refl
distinct-append (y ∷ ys) x c d =
    ground
      (arith, distinct-append ys x, contains-append ys (x ∷ []) y, text_eq_iff x y, text_eq_iff y x)

filled-append : (xs : List Text) (x : Text) → is_filled (xs ++ x ∷ []) ≡ true
filled-append [] x = refl
filled-append (y ∷ ys) x = refl

put-sound :
    (m : GroupMap) (g : Text) (v : List Text)
    → is_filled v ≡ true
    → distinct v ≡ true
    → sound m ≡ true
    → sound (put_resources m g v) ≡ true
unfolding sound put_resources
put-sound [] g v f d s = ground arith
put-sound ((k, w) ∷ m) g v f d s = ground (arith, put-sound m g v)

resources_of-distinct :
    (m : GroupMap) (g : Text) → sound m ≡ true → distinct (resources_of m g) ≡ true
unfolding sound resources_of distinct
resources_of-distinct [] g s = refl
resources_of-distinct ((k, w) ∷ m) g s = ground (arith, resources_of-distinct m g)

put-fine :
    (m : GroupMap) (g : Text) (v : List Text)
    → is_filled v ≡ true
    → distinct v ≡ true
    → fine m ≡ true
    → fine (put_resources m g v) ≡ true
unfolding fine
put-fine m g v f d s = ground (arith, put-sound m g v f d, put-keys_distinct m g v)

add_resource-fine : (m : GroupMap) (g n : Text) → fine m ≡ true → fine (add_resource m g n) ≡ true
unfolding fine add_resource
add_resource-fine m g n s = ground (
  arith,
  put-sound m g (resources_of m g ++ n ∷ []) (filled-append (resources_of m g) n),
  distinct-append (resources_of m g) n,
  resources_of-distinct m g,
  put-keys_distinct m g (resources_of m g ++ n ∷ []),
)

keep_resources-fine :
    (m : GroupMap) (g : Text) (rs : List Text) → fine m ≡ true → fine (keep_resources m g rs) ≡ true
unfolding keep_resources
keep_resources-fine m g [] s = s
keep_resources-fine m g (r ∷ rs) s = ground (
  arith,
  keep_resources-fine m g rs s,
  keep_resources-fine (add_resource m g r) g rs,
  add_resource-fine m g r s,
)

keep_groups-fine :
    (want : List PolicyRule) (failed rs : List Text) (m : GroupMap) (gs : List Text)
    → fine m ≡ true
    → fine (keep_groups want failed rs m gs) ≡ true
unfolding keep_groups
keep_groups-fine want failed rs m [] s = s
keep_groups-fine want failed rs m (g ∷ gs) s = ground (
  arith,
  keep_groups-fine want failed rs m gs s,
  keep_groups-fine want failed rs (keep_resources m g rs) gs,
  keep_resources-fine m g rs s,
)

pub keep_rules-fine :
    (want : List PolicyRule) (failed : List Text) (m : GroupMap) (current : List PolicyRule)
    → fine m ≡ true
    → fine (keep_rules want failed m current) ≡ true
unfolding keep_rules
keep_rules-fine want failed m [] s = s
keep_rules-fine want failed m (rule ∷ rest) s =
    keep_rules-fine want failed (keep_groups want failed rule.resources m rule.api_groups) rest
      (keep_groups-fine want failed rule.resources m rule.api_groups s)

-- Every rule has resources, and none twice.
unfoldable pub rules_sound : List PolicyRule → Bool
rules_sound [] = true
rules_sound (rule ∷ rest) = is_filled rule.resources && distinct rule.resources && rules_sound rest

pub by_group-fine :
    (m : GroupMap) (want : List PolicyRule)
    → rules_sound want ≡ true
    → fine m ≡ true
    → fine (by_group m want) ≡ true
unfolding by_group rules_sound
by_group-fine m [] r s = s
by_group-fine m (rule ∷ rest) r s =
    by_group-fine (put_resources m (first_group rule.api_groups) rule.resources) rest (ground arith)
      (put-fine m (first_group rule.api_groups) rule.resources (ground arith) (ground arith) s)

add_resources-fine :
    (m : GroupMap) (g : Text) (rs : List ApiResource)
    → fine m ≡ true
    → fine (add_resources m g rs) ≡ true
unfolding add_resources
add_resources-fine m g [] s = s
add_resources-fine m g (r ∷ rs) s = ground (
  arith,
  add_resources-fine m g rs s,
  add_resources-fine (add_resource m g r.name) g rs,
  add_resource-fine m g r.name s,
)

insert_text-distinct :
    (x : Text) (xs : List Text)
    → contains xs x ≡ false
    → distinct xs ≡ true
    → distinct (insert_text x xs) ≡ true
unfolding insert_text distinct contains
insert_text-distinct x [] c d = refl
insert_text-distinct x (y ∷ ys) c d = ground (
  arith,
  insert_text-distinct x ys,
  contains-insert_text x ys y,
  text_eq_iff x y,
  text_eq_iff y x,
)

sort_texts-distinct : (xs : List Text) → distinct xs ≡ true → distinct (sort_texts xs) ≡ true
unfolding sort_texts distinct
sort_texts-distinct [] d = d
sort_texts-distinct (x ∷ xs) d = ground (
  arith,
  sort_texts-distinct xs,
  insert_text-distinct x (sort_texts xs),
  contains-sort_texts xs x,
)

rules_in_order-sound : (m : GroupMap) → sound m ≡ true → rules_sound (rules_in_order m) ≡ true
unfolding rules_in_order rules_sound sound
rules_in_order-sound [] s = refl
rules_in_order-sound ((g, v) ∷ m) s =
    ground (arith, rules_in_order-sound m, sort_texts-distinct v, sort_texts-filled v)

pub sorted-sound : (m : GroupMap) → sound m ≡ true → rules_sound (sorted m) ≡ true
unfolding sorted
sorted-sound m s = rules_in_order-sound (sort_groups m) (sort_groups-sound m ∙ s)

module _ ⦃p : Platform⦄ where
  add_parsed-fine :
      (m : GroupMap) (g : Option Text) (rs : List ApiResource)
      → fine m ≡ true
      → fine (add_parsed m g rs) ≡ true
  add_parsed-fine m none rs s = s
  add_parsed-fine m (some g) rs s = add_resources-fine m g rs s

  add_lists-fine :
      (m : GroupMap) (ls : List (Option ApiResourceList))
      → fine m ≡ true
      → fine (add_lists m ls) ≡ true
  unfolding add_lists
  add_lists-fine m [] s = s
  add_lists-fine m (none ∷ ls) s = add_lists-fine m ls s
  add_lists-fine m (some l ∷ ls) s =
      add_lists-fine (add_parsed m (p.parse_group_version l.group_version) l.api_resources) ls
        (add_parsed-fine m (p.parse_group_version l.group_version) l.api_resources s)

  pub rules-rules_sound : (ls : List (Option ApiResourceList)) → rules_sound (rules ls) ≡ true
  unfolding rules fine sound keys_distinct
  rules-rules_sound ls = sorted-sound (add_lists [] ls) (ground (arith, add_lists-fine [] ls))
