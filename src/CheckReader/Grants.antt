-- ===== src/CheckReader/Grants.antt =====
-- checkreader.go: exactly what Rules grants.
use incident_controller.Prelude.{
  ◌∙◌, Text, Bool, true, false, ◌&&◌, ◌||◌, Option, none, some, List, [], ◌∷◌, ◌++◌, ◌≡◌, refl,
  arith, text_eq, text_eq_iff,
}
use incident_controller.Api.Rbac.{PolicyRule, ApiResource, ApiResourceList}
use incident_controller.Platform.{Platform}
use incident_controller.CheckReader.Rules.{
  rules, add_lists, add_parsed, sorted, rules_in_order, sort_groups, insert_group, sort_texts,
  insert_text, add_resources, readable, add_resource, resources_of, put_resources, contains,
  GroupMap,
}

-- Some rule is for the group and names the resource.
unfoldable pub grants : List PolicyRule → Text → Text → Bool
grants [] g x = false
grants (rule ∷ rest) g x =
    contains rule.api_groups g && contains rule.resources x || grants rest g x

-- Some entry does.
unfoldable pub holds : GroupMap → Text → Text → Bool
holds [] g x = false
holds ((k, v) ∷ m) g x = text_eq k g && contains v x || holds m g x

pub contains-append :
    (xs ys : List Text) (x : Text) → contains (xs ++ ys) x ≡ (contains xs x || contains ys x)
unfolding contains
contains-append [] ys x = refl
contains-append (y ∷ xs) ys x = ground (arith, contains-append xs ys x)

pub holds-put :
    (m : GroupMap) (g n h x : Text)
    → holds (put_resources m g (resources_of m g ++ n ∷ [])) h x
      ≡ (text_eq g h && text_eq n x || holds m h x)
unfolding holds put_resources resources_of contains
holds-put [] g n h x = ground arith
holds-put ((k, v) ∷ m) g n h x =
    ground (arith, holds-put m g n h x, text_eq_iff k g, contains-append v (n ∷ []) x)

resources_of-holds :
    (m : GroupMap) (g x : Text) → contains (resources_of m g) x ≡ true → holds m g x ≡ true
unfolding holds resources_of contains
resources_of-holds [] g x h = ground arith
resources_of-holds ((k, v) ∷ m) g x h = ground (arith, resources_of-holds m g x)

pub holds-add_resource :
    (m : GroupMap) (g n h x : Text)
    → holds (add_resource m g n) h x ≡ (text_eq g h && text_eq n x || holds m h x)
unfolding add_resource
holds-add_resource m g n h x =
    ground (arith, holds-put m g n h x, resources_of-holds m g n, text_eq_iff g h, text_eq_iff n x)

-- A list of resources offers a name to read.
unfoldable pub offers : List ApiResource → Text → Bool
offers [] x = false
offers (res ∷ rest) x = readable res && text_eq res.name x || offers rest x

holds-add_resources :
    (m : GroupMap) (g : Text) (rs : List ApiResource) (h x : Text)
    → holds (add_resources m g rs) h x ≡ (holds m h x || text_eq g h && offers rs x)
unfolding add_resources offers
holds-add_resources m g [] h x = ground arith
holds-add_resources m g (res ∷ rest) h x = ground (
  arith,
  holds-add_resources m g rest h x,
  holds-add_resources (add_resource m g res.name) g rest h x,
  holds-add_resource m g res.name h x,
)

pub contains-insert_text :
    (x : Text) (xs : List Text) (y : Text)
    → contains (insert_text x xs) y ≡ (text_eq x y || contains xs y)
unfolding insert_text contains
contains-insert_text x [] y = refl
contains-insert_text x (z ∷ xs) y = ground (arith, contains-insert_text x xs y)

pub contains-sort_texts : (xs : List Text) (y : Text) → contains (sort_texts xs) y ≡ contains xs y
unfolding sort_texts contains
contains-sort_texts [] y = refl
contains-sort_texts (x ∷ xs) y =
    ground (arith, contains-insert_text x (sort_texts xs) y, contains-sort_texts xs y)

holds-insert_group :
    (g : Text) (v : List Text) (m : GroupMap) (h x : Text)
    → holds (insert_group g v m) h x ≡ (text_eq g h && contains v x || holds m h x)
unfolding insert_group holds
holds-insert_group g v [] h x = refl
holds-insert_group g v ((k, w) ∷ m) h x = ground (arith, holds-insert_group g v m h x)

pub holds-sort_groups : (m : GroupMap) (h x : Text) → holds (sort_groups m) h x ≡ holds m h x
unfolding sort_groups holds
holds-sort_groups [] h x = refl
holds-sort_groups ((g, v) ∷ m) h x =
    ground (arith, holds-insert_group g v (sort_groups m) h x, holds-sort_groups m h x)

grants-rules_in_order : (m : GroupMap) (h x : Text) → grants (rules_in_order m) h x ≡ holds m h x
unfolding rules_in_order grants holds contains
grants-rules_in_order [] h x = refl
grants-rules_in_order ((g, v) ∷ m) h x =
    ground (arith, contains-sort_texts v x, grants-rules_in_order m h x)

pub grants-sorted : (m : GroupMap) (h x : Text) → grants (sorted m) h x ≡ holds m h x
unfolding sorted
grants-sorted m h x = grants-rules_in_order (sort_groups m) h x ∙ holds-sort_groups m h x

module _ ⦃p : Platform⦄ where
  -- Discovery offers a resource of a group to read.
  abbrev pub offers_parsed : Option Text → List ApiResource → Text → Text → Bool
  offers_parsed none rs h x = false
  offers_parsed (some g) rs h x = text_eq g h && offers rs x

  abbrev offers_list : Option ApiResourceList → Text → Text → Bool
  offers_list none h x = false
  offers_list (some l) h x =
      offers_parsed (p.parse_group_version l.group_version) l.api_resources h x

  unfoldable pub offered : List (Option ApiResourceList) → Text → Text → Bool
  offered [] h x = false
  offered (l ∷ ls) h x = offers_list l h x || offered ls h x

  holds-add_parsed :
      (m : GroupMap) (g : Option Text) (rs : List ApiResource) (h x : Text)
      → holds (add_parsed m g rs) h x ≡ (holds m h x || offers_parsed g rs h x)
  holds-add_parsed m none rs h x = ground arith
  holds-add_parsed m (some g) rs h x = holds-add_resources m g rs h x

  holds-add_lists :
      (m : GroupMap) (ls : List (Option ApiResourceList)) (h x : Text)
      → holds (add_lists m ls) h x ≡ (holds m h x || offered ls h x)
  unfolding add_lists offered
  holds-add_lists m [] h x = ground arith
  holds-add_lists m (none ∷ ls) h x = holds-add_lists m ls h x
  holds-add_lists m (some l ∷ ls) h x = ground (
    arith,
    holds-add_lists (add_parsed m (p.parse_group_version l.group_version) l.api_resources) ls h x,
    holds-add_parsed m (p.parse_group_version l.group_version) l.api_resources h x,
  )

  -- Rules grants a resource of a group exactly when discovery offers it: some list of the group
  -- has it, it can be got or listed, and it is neither a subresource nor secrets.
  pub grants-rules :
      (ls : List (Option ApiResourceList)) (h x : Text) → grants (rules ls) h x ≡ offered ls h x
  unfolding rules holds
  grants-rules ls h x = grants-sorted (add_lists [] ls) h x ∙ holds-add_lists [] ls h x
