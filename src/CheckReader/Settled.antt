-- ===== src/CheckReader/Settled.antt =====
-- checkreader.go: two sorted maps that grant the same are the same, and so are their rules.
use incident_controller.Prelude.{
  subst, ◌∙◌, Text, true, false, ◌||◌, List, [], ◌∷◌, ◌≡◌, refl, arith, ap, text_eq, text_eq_iff,
  text_eq_refl, text_ltb, text_ltb_asym, sym,
}
use incident_controller.CheckReader.Rules.{contains, GroupMap, sort_groups, sorted}
use incident_controller.CheckReader.Grants.{holds, holds-sort_groups}
use incident_controller.CheckReader.Distinct.{keys_distinct}
use incident_controller.CheckReader.Ordered.{ordered-ext, text_ltb_irrefl}
use incident_controller.CheckReader.Canonical.{
  is_filled, canonical, before_keys, before_keys-holds, sort_values, sort_values-canonical, sound,
  sort_groups-keys_sorted, sort_groups-sound, holds-sort_values, rules_of, rules_of-sort_values,
}

-- A group of a map has a resource in it.
abbrev first_of : List Text → Text
first_of [] = []
first_of (x ∷ _) = x

contains-first_of : (v : List Text) → is_filled v ≡ true → contains v (first_of v) ≡ true
unfolding contains
contains-first_of [] f = f
contains-first_of (x ∷ xs) f = ground (arith, text_eq_refl x)

-- What the rest of a sorted map holds of its first group: nothing.
holds-first : (g x : Text) (m : GroupMap) → before_keys g m ≡ true → holds m g x ≡ false
holds-first g x m b = ground (arith, before_keys-holds g g x m b, text_ltb_irrefl g)

-- What a map holds, at its first entry.
abbrev Alike : GroupMap → GroupMap → Type 0
Alike m n = (h x : Text) → holds m h x ≡ holds n h x

first_key :
    (g k : Text) (v w : List Text) (m n : GroupMap)
    → before_keys k n ≡ true
    → is_filled v ≡ true
    → Alike ((g, v) ∷ m) ((k, w) ∷ n)
    → (text_eq k g || text_ltb k g) ≡ true
unfolding holds
first_key g k v w m n b f a = ground (
  arith,
  a g (first_of v),
  contains-first_of v f,
  text_eq_refl g,
  before_keys-holds k g (first_of v) n b,
)

same_keys :
    (g k : Text) (v w : List Text) (m n : GroupMap)
    → canonical ((g, v) ∷ m) ≡ true
    → canonical ((k, w) ∷ n) ≡ true
    → Alike ((g, v) ∷ m) ((k, w) ∷ n)
    → g ≡ k
unfolding canonical
same_keys g k v w m n c d a = ground (
  arith,
  first_key g k v w m n (ground arith) (ground arith) a,
  first_key k g w v n m (ground arith) (ground arith) (λ h x. sym (a h x)),
  text_ltb_asym g k,
  text_eq_iff k g,
  text_eq_iff g k,
)

same_values :
    (g : Text) (v w : List Text) (m n : GroupMap)
    → canonical ((g, v) ∷ m) ≡ true
    → canonical ((g, w) ∷ n) ≡ true
    → Alike ((g, v) ∷ m) ((g, w) ∷ n)
    → v ≡ w
unfolding canonical holds
same_values g v w m n c d a =
    ordered-ext v w (ground arith) (ground arith)
      λ z. ground (arith, a g z, text_eq_refl g, holds-first g z m, holds-first g z n)

same_rest :
    (g : Text) (v : List Text) (m n : GroupMap)
    → before_keys g m ≡ true
    → before_keys g n ≡ true
    → Alike ((g, v) ∷ m) ((g, v) ∷ n)
    → Alike m n
unfolding holds
same_rest g v m n b c a h x =
    ground (arith, a h x, text_eq_iff g h, holds-first g x m, holds-first g x n)

nothing-holds :
    (g : Text) (v : List Text) (m : GroupMap)
    → canonical ((g, v) ∷ m) ≡ true
    → ¬ Alike ((g, v) ∷ m) []
unfolding canonical holds
nothing-holds g v m c a = ground (arith, a g (first_of v), contains-first_of v, text_eq_refl g)

same_entries :
    (g : Text) (v w : List Text) (m n : GroupMap)
    → canonical ((g, v) ∷ m) ≡ true
    → (Alike m n → m ≡ n)
    → canonical ((g, w) ∷ n) ≡ true
    → Alike ((g, v) ∷ m) ((g, w) ∷ n)
    → ◌≡◌ {A = GroupMap} ((g, v) ∷ m) ((g, w) ∷ n)
unfolding canonical
same_entries g v w m n c rest d a =
    let values : v ≡ w = same_values g v w m n c d a in
    let rest : m ≡ n = rest (
      same_rest g v m n (ground arith) (ground arith)
        (subst (λ u. Alike ((g, v) ∷ m) ((g, u) ∷ n)) (sym values) a)) in
    cc (values, rest)

canonical-rest :
    (g : Text) (v : List Text) (m : GroupMap) → canonical ((g, v) ∷ m) ≡ true → canonical m ≡ true
unfolding canonical
canonical-rest g v m c = ground arith

-- Two sorted maps that hold the same are the same.
pub canonical-ext : (m n : GroupMap) → canonical m ≡ true → canonical n ≡ true → Alike m n → m ≡ n
canonical-ext [] [] c d a = refl
canonical-ext [] ((k, w) ∷ n) c d a = absurd (nothing-holds k w n d (λ h x. sym (a h x)))
canonical-ext ((g, v) ∷ m) [] c d a = absurd (nothing-holds g v m c a)
canonical-ext ((g, v) ∷ m) ((k, w) ∷ n) c d a =
    subst
      (λ l.
        canonical ((l, w) ∷ n) ≡ true
        → Alike ((g, v) ∷ m) ((l, w) ∷ n)
        → ◌≡◌ {A = GroupMap} ((g, v) ∷ m) ((l, w) ∷ n))
      (same_keys g k v w m n c d a)
      (same_entries g v w m n c
        (canonical-ext m n (canonical-rest g v m c) (canonical-rest k w n d)))
      d a

abbrev settled : GroupMap → GroupMap
settled m = sort_values (sort_groups m)

settled-canonical :
    (m : GroupMap) → keys_distinct m ≡ true → sound m ≡ true → canonical (settled m) ≡ true
settled-canonical m k s =
    sort_values-canonical (sort_groups m) (sort_groups-keys_sorted m k) (sort_groups-sound m ∙ s)

settled-holds : (m : GroupMap) (h x : Text) → holds (settled m) h x ≡ holds m h x
settled-holds m h x = holds-sort_values (sort_groups m) h x ∙ holds-sort_groups m h x

sorted-settled : (m : GroupMap) → sorted m ≡ rules_of (settled m)
unfolding sorted
sorted-settled m = sym (rules_of-sort_values (sort_groups m))

-- Two maps that hold the same have the same rules.
pub sorted-ext :
    (m n : GroupMap)
    → keys_distinct m ≡ true
    → sound m ≡ true
    → keys_distinct n ≡ true
    → sound n ≡ true
    → ((h x : Text) → holds m h x ≡ holds n h x)
    → sorted m ≡ sorted n
sorted-ext m n k s l t a =
    sorted-settled m
    ∙ ap rules_of (
        canonical-ext (settled m) (settled n) (settled-canonical m k s) (settled-canonical n l t)
          (λ h x. settled-holds m h x ∙ a h x ∙ sym (settled-holds n h x)))
    ∙ sym (sorted-settled n)
