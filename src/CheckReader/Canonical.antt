-- ===== src/CheckReader/Canonical.antt =====
-- checkreader.go: the rules of `sorted` are settled by what they grant.
use incident_controller.Prelude.{
  Text, Bool, true, false, ◌&&◌, List, [], ◌∷◌, ◌≡◌, refl, arith, text_eq_iff, text_ltb,
  text_ltb_total, text_ltb_trans,
}
use incident_controller.Api.Rbac.{PolicyRule}
use incident_controller.CheckReader.Rules.{
  sort_texts, GroupMap, insert_group, sort_groups, rules_in_order, read_verbs, insert_text,
}
use incident_controller.CheckReader.Grants.{holds, contains-sort_texts}
use incident_controller.CheckReader.Distinct.{keyed, keys_distinct, keyed-sort_groups}
use incident_controller.CheckReader.Ordered.{ordered, distinct, sort_texts-ordered}

abbrev pub is_filled : List Text → Bool
is_filled [] = false
is_filled (_ ∷ _) = true

-- Every group of the map has resources, none of them twice.
unfoldable pub sound : GroupMap → Bool
sound [] = true
sound ((g, v) ∷ m) = is_filled v && distinct v && sound m

-- The key comes before all keys of the map.
unfoldable pub before_keys : Text → GroupMap → Bool
before_keys g [] = true
before_keys g ((k, v) ∷ m) = text_ltb g k && before_keys g m

-- The keys are sorted, and every one has resources, sorted.
unfoldable pub canonical : GroupMap → Bool
unfolding before_keys
canonical [] = true
canonical ((g, v) ∷ m) = before_keys g m && is_filled v && ordered v && canonical m

-- The map with each list of resources sorted.
unfoldable pub sort_values : GroupMap → GroupMap
sort_values [] = []
sort_values ((g, v) ∷ m) = (g, sort_texts v) ∷ sort_values m

-- The rules of a map as it is.
unfoldable pub rules_of : GroupMap → List PolicyRule
rules_of [] = []
rules_of ((g, v) ∷ m) =
    record { api_groups = g ∷ []; resources = v; verbs = read_verbs } ∷ rules_of m

pub rules_of-sort_values : (m : GroupMap) → rules_of (sort_values m) ≡ rules_in_order m
unfolding rules_of sort_values rules_in_order
rules_of-sort_values [] = refl
rules_of-sort_values ((g, v) ∷ m) = ground (arith, rules_of-sort_values m)

pub holds-sort_values : (m : GroupMap) (g x : Text) → holds (sort_values m) g x ≡ holds m g x
unfolding holds sort_values
holds-sort_values [] g x = refl
holds-sort_values ((k, v) ∷ m) g x =
    ground (arith, holds-sort_values m g x, contains-sort_texts v x)

before_keys_trans :
    (g k : Text) (m : GroupMap)
    → text_ltb g k ≡ true
    → before_keys k m ≡ true
    → before_keys g m ≡ true
unfolding before_keys
before_keys_trans g k [] h b = refl
before_keys_trans g k ((l, v) ∷ m) h b =
    ground (arith, before_keys_trans g k m h, text_ltb_trans g k l)

before_keys-insert :
    (k g : Text) (v : List Text) (m : GroupMap)
    → text_ltb k g ≡ true
    → before_keys k m ≡ true
    → before_keys k (insert_group g v m) ≡ true
unfolding before_keys insert_group
before_keys-insert k g v [] h b = ground arith
before_keys-insert k g v ((l, w) ∷ m) h b = ground (arith, before_keys-insert k g v m h)

unfoldable pub keys_sorted : GroupMap → Bool
unfolding before_keys
keys_sorted [] = true
keys_sorted ((g, v) ∷ m) = before_keys g m && keys_sorted m

insert_group-keys_sorted :
    (g : Text) (v : List Text) (m : GroupMap)
    → keyed m g ≡ false
    → keys_sorted m ≡ true
    → keys_sorted (insert_group g v m) ≡ true
unfolding insert_group keys_sorted keyed
insert_group-keys_sorted g v [] k s = refl
insert_group-keys_sorted g v ((l, w) ∷ m) k s = ground (
  arith,
  insert_group-keys_sorted g v m,
  before_keys_trans g l m,
  before_keys-insert l g v m,
  text_ltb_total g l,
  text_eq_iff l g,
)

insert_group-sound :
    (g : Text) (v : List Text) (m : GroupMap)
    → sound (insert_group g v m) ≡ (is_filled v && distinct v && sound m)
unfolding insert_group sound
insert_group-sound g v [] = refl
insert_group-sound g v ((l, w) ∷ m) = ground (arith, insert_group-sound g v m)

pub sort_groups-sound : (m : GroupMap) → sound (sort_groups m) ≡ sound m
unfolding sort_groups sound
sort_groups-sound [] = refl
sort_groups-sound ((g, v) ∷ m) =
    ground (arith, insert_group-sound g v (sort_groups m), sort_groups-sound m)

pub sort_groups-keys_sorted :
    (m : GroupMap) → keys_distinct m ≡ true → keys_sorted (sort_groups m) ≡ true
unfolding sort_groups keys_distinct keys_sorted
sort_groups-keys_sorted [] d = refl
sort_groups-keys_sorted ((g, v) ∷ m) d = ground (
  arith,
  sort_groups-keys_sorted m,
  insert_group-keys_sorted g v (sort_groups m),
  keyed-sort_groups m g,
)

insert_filled : (x : Text) (xs : List Text) → is_filled (insert_text x xs) ≡ true
unfolding insert_text
insert_filled x [] = refl
insert_filled x (y ∷ ys) = ground arith

pub sort_texts-filled : (v : List Text) → is_filled v ≡ true → is_filled (sort_texts v) ≡ true
unfolding sort_texts insert_text
sort_texts-filled [] f = f
sort_texts-filled (x ∷ xs) f = insert_filled x (sort_texts xs)

before_keys-sort_values :
    (g : Text) (m : GroupMap) → before_keys g (sort_values m) ≡ before_keys g m
unfolding before_keys sort_values
before_keys-sort_values g [] = refl
before_keys-sort_values g ((k, v) ∷ m) = ground (arith, before_keys-sort_values g m)

pub sort_values-canonical :
    (m : GroupMap) → keys_sorted m ≡ true → sound m ≡ true → canonical (sort_values m) ≡ true
unfolding sort_values canonical sound keys_sorted
sort_values-canonical [] k s = refl
sort_values-canonical ((g, v) ∷ m) k s = ground (
  arith,
  sort_values-canonical m,
  before_keys-sort_values g m,
  sort_texts-filled v,
  sort_texts-ordered v,
)

-- A group that comes before all keys has nothing in the map.
pub before_keys-holds :
    (g h x : Text) (m : GroupMap)
    → before_keys g m ≡ true
    → holds m h x ≡ true
    → text_ltb g h ≡ true
unfolding before_keys holds
before_keys-holds g h x [] b k = ground arith
before_keys-holds g h x ((l, v) ∷ m) b k =
    ground (arith, before_keys-holds g h x m, text_eq_iff l h)
