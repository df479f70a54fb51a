-- ===== src/CheckReader/Rules.antt =====
-- checkreader.go: the rules that grant reads, from discovery and from the role as it is.
use incident_controller.Prelude.{
  text_ltb, Text, Bool, false, not, ◌&&◌, ◌||◌, Option, none, some, List, [], ◌∷◌, ◌++◌, bytes,
  text_eq, ◌==◌, if◌then◌else◌,
}
use incident_controller.Api.Rbac.{PolicyRule, ApiResource, ApiResourceList}
use incident_controller.Platform.{Platform}

-- slices.Contains.
unfoldable pub contains : List Text → Text → Bool
contains [] x = false
contains (y ∷ ys) x = text_eq y x || contains ys x

-- `map[string][]string`, an entry for each key.
abbrev pub GroupMap : Type 0
GroupMap = List (Text × List Text)

unfoldable pub resources_of : GroupMap → Text → List Text
resources_of [] g = []
resources_of ((k, v) ∷ m) g = if text_eq k g then v else resources_of m g

unfoldable pub put_resources : GroupMap → Text → List Text → GroupMap
put_resources [] g v = (g, v) ∷ []
put_resources ((k, w) ∷ m) g v = if text_eq k g then (k, v) ∷ m else (k, w) ∷ put_resources m g v

-- `if !slices.Contains(byGroup[g], n) { byGroup[g] = append(byGroup[g], n) }`
unfoldable pub add_resource : GroupMap → Text → Text → GroupMap
add_resource m g n =
    if contains (resources_of m g) n then m else put_resources m g (resources_of m g ++ n ∷ [])

unfoldable pub excluded : Text → Bool
unfolding bytes
excluded name = text_eq name (bytes "secrets")

-- `strings.Contains(name, "/")`
unfoldable pub has_slash : Text → Bool
has_slash [] = false
has_slash (c ∷ s) = c == 0x2f || has_slash s

-- A resource that is granted: no subresource, not excluded, and it can be read.
unfoldable pub readable : ApiResource → Bool
unfolding bytes
readable res = not (
    has_slash res.name
    || excluded res.name
    || not (contains res.verbs (bytes "get")) && not (contains res.verbs (bytes "list")))

unfoldable pub add_resources : GroupMap → Text → List ApiResource → GroupMap
add_resources m g [] = m
add_resources m g (res ∷ rest) =
    add_resources (if readable res then add_resource m g res.name else m) g rest

-- slices.Sort of texts that are all different, as an insertion sort.
unfoldable pub insert_text : Text → List Text → List Text
insert_text x [] = x ∷ []
insert_text x (y ∷ ys) = if text_ltb x y then x ∷ y ∷ ys else y ∷ insert_text x ys

unfoldable pub sort_texts : List Text → List Text
sort_texts [] = []
sort_texts (x ∷ xs) = insert_text x (sort_texts xs)

unfoldable pub insert_group : Text → List Text → GroupMap → GroupMap
insert_group g v [] = (g, v) ∷ []
insert_group g v ((k, w) ∷ m) =
    if text_ltb g k then (g, v) ∷ (k, w) ∷ m else (k, w) ∷ insert_group g v m

unfoldable pub sort_groups : GroupMap → GroupMap
sort_groups [] = []
sort_groups ((g, v) ∷ m) = insert_group g v (sort_groups m)

unfoldable pub read_verbs : List Text
unfolding bytes
read_verbs = bytes "get" ∷ bytes "list" ∷ bytes "watch" ∷ []

unfoldable pub rules_in_order : GroupMap → List PolicyRule
rules_in_order [] = []
rules_in_order ((g, v) ∷ m) =
    record { api_groups = g ∷ []; resources = sort_texts v; verbs = read_verbs } ∷ rules_in_order m

unfoldable pub sorted : GroupMap → List PolicyRule
sorted m = rules_in_order (sort_groups m)

module _ ⦃p : Platform⦄ where
  abbrev pub add_parsed : GroupMap → Option Text → List ApiResource → GroupMap
  add_parsed m none resources = m
  add_parsed m (some g) resources = add_resources m g resources

  abbrev add_list : GroupMap → Option ApiResourceList → GroupMap
  add_list m none = m
  add_list m (some l) = add_parsed m (p.parse_group_version l.group_version) l.api_resources

  unfoldable pub add_lists : GroupMap → List (Option ApiResourceList) → GroupMap
  add_lists m [] = m
  add_lists m (l ∷ ls) = add_lists (add_list m l) ls

  -- `Rules`; a list may be nil.
  unfoldable pub rules : List (Option ApiResourceList) → List PolicyRule
  rules lists = sorted (add_lists [] lists)

-- `rule.APIGroups[0]`; on a rule with none the source panics, and `sorted` makes no such rule.
abbrev pub first_group : List Text → Text
first_group [] = []
first_group (g ∷ _) = g

unfoldable pub by_group : GroupMap → List PolicyRule → GroupMap
by_group m [] = m
by_group m (rule ∷ rest) =
    by_group (put_resources m (first_group rule.api_groups) rule.resources) rest

unfoldable pub discovered : List PolicyRule → Text → Bool
discovered [] g = false
discovered (rule ∷ rest) g = text_eq (first_group rule.api_groups) g || discovered rest g

unfoldable pub keep_resources : GroupMap → Text → List Text → GroupMap
keep_resources m g [] = m
keep_resources m g (res ∷ rest) =
    keep_resources (if excluded res then m else add_resource m g res) g rest

-- The groups of one rule of the role as it is.
unfoldable pub keep_groups :
    List PolicyRule → List Text → List Text → GroupMap → List Text → GroupMap
keep_groups want failed resources m [] = m
keep_groups want failed resources m (g ∷ gs) =
    keep_groups want failed resources
      (if discovered want g || not (contains failed g) then m else keep_resources m g resources) gs

unfoldable pub keep_rules : List PolicyRule → List Text → GroupMap → List PolicyRule → GroupMap
keep_rules want failed m [] = m
keep_rules want failed m (rule ∷ rest) =
    keep_rules want failed (keep_groups want failed rule.resources m rule.api_groups) rest

unfoldable pub with_kept : List PolicyRule → List PolicyRule → List Text → List PolicyRule
with_kept want current [] = want
with_kept want current (f ∷ failed) =
    sorted (keep_rules want (f ∷ failed) (by_group [] want) current)
