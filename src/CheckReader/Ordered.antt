-- ===== src/CheckReader/Ordered.antt =====
-- checkreader.go: a sorted list of different texts is settled by what it contains.
use incident_controller.Prelude.{
  Text, Bool, true, false, not, ◌&&◌, ◌||◌, List, [], ◌∷◌, ◌≡◌, refl, arith, text_eq, text_eq_iff,
  text_eq_refl, text_ltb, text_ltb_asym, text_ltb_total, text_ltb_trans,
}
use incident_controller.CheckReader.Rules.{contains, insert_text, sort_texts}
use incident_controller.CheckReader.Grants.{contains-sort_texts}

-- The text comes before all of the list.
unfoldable pub before_all : Text → List Text → Bool
before_all x [] = true
before_all x (y ∷ ys) = text_ltb x y && before_all x ys

-- The list is sorted, and no two of it are the same.
unfoldable pub ordered : List Text → Bool
unfolding before_all
ordered [] = true
ordered (x ∷ xs) = before_all x xs && ordered xs

unfoldable pub distinct : List Text → Bool
distinct [] = true
distinct (x ∷ xs) = not (contains xs x) && distinct xs

before_all_trans :
    (x y : Text) (ys : List Text)
    → text_ltb x y ≡ true
    → before_all y ys ≡ true
    → before_all x ys ≡ true
unfolding before_all
before_all_trans x y [] h k = refl
before_all_trans x y (z ∷ zs) h k = ground (arith, before_all_trans x y zs h, text_ltb_trans x y z)

before_all-insert :
    (x y : Text) (ys : List Text)
    → text_ltb y x ≡ true
    → before_all y ys ≡ true
    → before_all y (insert_text x ys) ≡ true
unfolding before_all insert_text
before_all-insert x y [] h k = ground arith
before_all-insert x y (z ∷ zs) h k = ground (arith, before_all-insert x y zs h)

insert_text-ordered :
    (x : Text) (ys : List Text)
    → contains ys x ≡ false
    → ordered ys ≡ true
    → ordered (insert_text x ys) ≡ true
unfolding insert_text ordered contains
insert_text-ordered x [] c o = refl
insert_text-ordered x (y ∷ ys) c o = ground (
  arith,
  insert_text-ordered x ys,
  before_all_trans x y ys,
  before_all-insert x y ys,
  text_ltb_total x y,
  text_eq_iff y x,
)

pub sort_texts-ordered : (xs : List Text) → distinct xs ≡ true → ordered (sort_texts xs) ≡ true
unfolding sort_texts distinct ordered
sort_texts-ordered [] d = refl
sort_texts-ordered (x ∷ xs) d =
    ground (
      arith,
      sort_texts-ordered xs,
      insert_text-ordered x (sort_texts xs),
      contains-sort_texts xs x,
    )

pub before_all-contains :
    (x y : Text) (ys : List Text)
    → before_all x ys ≡ true
    → contains ys y ≡ true
    → text_ltb x y ≡ true
unfolding before_all contains
before_all-contains x y [] b c = ground arith
before_all-contains x y (z ∷ zs) b c = ground (arith, before_all-contains x y zs, text_eq_iff z y)

-- No text comes before itself.
pub text_ltb_irrefl : (x : Text) → text_ltb x x ≡ false
text_ltb_irrefl x = ground (arith, text_ltb_asym x x)

-- The first texts of two such lists that contain the same.
ordered-first :
    (x y : Text) (xs ys : List Text)
    → before_all x xs ≡ true
    → before_all y ys ≡ true
    → (text_eq x y || contains xs y) ≡ true
    → (text_eq y x || contains ys x) ≡ true
    → x ≡ y
ordered-first x y xs ys a b h k = ground (
  arith,
  before_all-contains x y xs a,
  before_all-contains y x ys b,
  text_ltb_asym x y,
  text_eq_iff x y,
  text_eq_iff y x,
)

contains-tail :
    (x z : Text) (xs ys : List Text)
    → before_all x xs ≡ true
    → before_all x ys ≡ true
    → (text_eq x z || contains xs z) ≡ (text_eq x z || contains ys z)
    → contains xs z ≡ contains ys z
contains-tail x z xs ys a b h = ground (
  arith,
  before_all-contains x z xs a,
  before_all-contains x z ys b,
  text_ltb_irrefl x,
  text_eq_iff x z,
)

-- Two sorted lists of different texts that contain the same texts are the same.
pub ordered-ext :
    (xs ys : List Text)
    → ordered xs ≡ true
    → ordered ys ≡ true
    → ((z : Text) → contains xs z ≡ contains ys z)
    → xs ≡ ys
unfolding ordered contains
ordered-ext [] [] a b h = refl
ordered-ext [] (y ∷ ys) a b h = ground (arith, h y, text_eq_refl y)
ordered-ext (x ∷ xs) [] a b h = ground (arith, h x, text_eq_refl x)
ordered-ext (x ∷ xs) (y ∷ ys) a b h =
    let first : x ≡ y =
      ordered-first x y xs ys (ground arith) (ground arith) (ground (arith, h y, text_eq_refl y))
        (ground (arith, h x, text_eq_refl x)) in
    let rest : xs ≡ ys =
      ordered-ext xs ys (ground arith) (ground arith)
        λ z. contains-tail x z xs ys (ground arith) (ground arith) (ground (arith, h z)) in
    cc (first, rest)
