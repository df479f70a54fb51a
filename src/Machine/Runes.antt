-- ===== src/Machine/Runes.antt =====
-- machine.go: outputOf cuts valid UTF-8 between two runes.
use incident_controller.Prelude.{
  length-take, append-nil, length-append, Bool-cases, ◌∙◌, ℕ, zero, suc, ◌+◌, ◌-◌, ◌≤◌, ◌<◌, Text,
  true, false, List, [], ◌∷◌, ◌++◌, ◌≡◌, ◌⊎◌, inl, inr, refl, sym, arith, ap, length, take, All,
}
use incident_controller.Machine.Output.{
  rune_start, starts_at, back_to_start, cut_output, max_output,
}

abbrev Continues : Text → Type 0
Continues = All (λ b. rune_start b ≡ false)

-- A rune in UTF-8: a byte that starts one, and at most three that continue it.
abbrev pub IsRune : Text → Type 0
IsRune [] = ⊥
IsRune (b ∷ s) = (rune_start b ≡ true) × (length s ≤ 3) × Continues s

abbrev pub encode : List Text → Text
encode [] = []
encode (r ∷ rs) = r ++ encode rs

-- Inside the bytes that continue a rune none starts one.
starts_at-inside : (s t : Text) (i : ℕ) → Continues s → i < length s → starts_at (s ++ t) i ≡ false
starts_at-inside [] t i c h = absurd (omega arith)
starts_at-inside (b ∷ s) t zero c h = c.0
starts_at-inside (b ∷ s) t (suc i) c h = starts_at-inside s t i c.1 (omega arith)

starts_at-after : (s t : Text) (i : ℕ) → starts_at (s ++ t) (length s + i) ≡ starts_at t i
starts_at-after [] t i = rw add_zero_left
  where
    add_zero_left : 0 + i ≡ i
    add_zero_left = omega arith
starts_at-after (b ∷ s) t i = rw suc_add (starts_at-after s t i)
  where
    suc_add : suc (length s) + i ≡ suc (length s + i)
    suc_add = omega arith

take-after : (s t : Text) (i : ℕ) → take (length s + i) (s ++ t) ≡ s ++ take i t
take-after [] t i = rw zero_add
  where
    zero_add : 0 + i ≡ i
    zero_add = omega arith
take-after (b ∷ s) t i = rw suc_add (ap (◌∷◌ b) (take-after s t i))
  where
    suc_add : suc (length s) + i ≡ suc (length s + i)
    suc_add = omega arith

le_or_lt : (a b : ℕ) → (a ≤ b) ⊎ (b < a)
le_or_lt a b = omega arith

-- A position where a rune starts splits the text between two runes.
take-encode :
    (rs : List Text) (i : ℕ)
    → All IsRune rs
    → (i ≡ 0) ⊎ (starts_at (encode rs) i ≡ true)
    → (kept : List Text) × (rest : List Text) × (rs ≡ kept ++ rest)
      × (take i (encode rs) ≡ encode kept)
take-encode rs zero v h = ([], rs, refl, refl)
take-encode [] (suc i) v (inl h) = absurd (omega arith)
take-encode [] (suc i) v (inr h) = cc
take-encode ([] ∷ rs) (suc i) v h = absurd v.0
take-encode ((b ∷ s) ∷ rs) (suc i) v (inl h) = absurd (omega arith)
take-encode ((b ∷ s) ∷ rs) (suc i) v (inr h) = elim (le_or_lt (length s) i) [
  | inr inside ↦ cc (starts_at-inside s (encode rs) i v.0.2 inside, h)
  | inl beyond ↦
      let e : length s + (i - length s) ≡ i = omega arith in
      let h' : starts_at (encode rs) (i - length s) ≡ true =
        sym (starts_at-after s (encode rs) (i - length s)) ∙ rw e h in
      let (kept, rest, split, same) = take-encode rs (i - length s) v.1 (inr h') in
      (
        (b ∷ s) ∷ kept,
        rest,
        ap (◌∷◌ (b ∷ s)) split,
        ap (◌∷◌ b) (
            ap (λ j. take j (s ++ encode rs)) (sym e)
            ∙ take-after s (encode rs) (i - length s)
            ∙ ap (◌++◌ s) same),
      )
]

back_to_start-le : (out : Text) (cut : ℕ) → back_to_start out cut ≤ cut
unfolding back_to_start
back_to_start-le out zero = omega arith
back_to_start-le out (suc cut) = ground (arith, back_to_start-le out cut)

back_to_start-starts :
    (out : Text) (cut : ℕ)
    → (back_to_start out cut ≡ 0) ⊎ (starts_at out (back_to_start out cut) ≡ true)
unfolding back_to_start
back_to_start-starts out zero = inl refl
back_to_start-starts out (suc cut) = elim (Bool-cases (starts_at out (suc cut))) [
  | inl e ↦ rw (e, back_to_start) (inr e)
  | inr e ↦ rw (e, back_to_start) (back_to_start-starts out cut)
]

-- No start between the cut and where the search stops is passed over.
back_to_start-ge :
    (out : Text) (cut i : ℕ) → i ≤ cut → starts_at out i ≡ true → i ≤ back_to_start out cut
unfolding back_to_start
back_to_start-ge out zero i h s = h
back_to_start-ge out (suc cut) i h s = elim (le_or_lt i cut) [
  | inl below ↦ ground (arith, back_to_start-ge out cut i below s)
  | inr top ↦ let e : i ≡ suc cut = omega arith in ground (arith, ap (starts_at out) e)
]

-- Every position of valid UTF-8 has a start at most three bytes back.
start_near :
    (rs : List Text) (i : ℕ)
    → All IsRune rs
    → i < length (encode rs)
    → (j : ℕ) × (j ≤ i) × (i ≤ j + 3) × (starts_at (encode rs) j ≡ true)
start_near [] i v h = absurd (omega arith)
start_near ([] ∷ rs) i v h = absurd v.0
start_near ((b ∷ s) ∷ rs) i v h = elim (le_or_lt (suc (length s)) i) [
  | inr inside ↦ (0, omega arith, omega (arith, v.0.1), v.0.0)
  | inl beyond ↦
      let (j, le, near, start) =
        start_near rs (i - suc (length s)) v.1 (omega (arith, length-append s (encode rs))) in
      (suc (length s + j), omega arith, omega arith, starts_at-after s (encode rs) j ∙ start)
]

-- Valid UTF-8 is cut between two runes, to at most 512 bytes; what is cut off leaves at least 509.
pub cut_output-encode :
    (rs : List Text)
    → All IsRune rs
    → (kept : List Text) × (rest : List Text) × (rs ≡ kept ++ rest)
      × (cut_output (encode rs) ≡ encode kept)
      × (length (encode kept) ≤ max_output)
      × ((rest ≡ []) ⊎ (509 ≤ length (encode kept)))
unfolding cut_output
cut_output-encode rs v = elim (le_or_lt (length (encode rs)) max_output) [
  | inl short ↦ (rs, [], sym (append-nil rs), ground arith, short, inl refl)
  | inr long ↦
      let out = encode rs in
      let cut = back_to_start out max_output in
      let (kept, rest, split, same) = take-encode rs cut v (back_to_start-starts out max_output) in
      let (j, le, near, start) = start_near rs max_output v long in
      let size : length (encode kept) ≡ cut =
        omega (arith, ap length same, length-take cut out, back_to_start-le out max_output) in
      (
        kept,
        rest,
        split,
        ground (arith, same),
        omega (arith, size, back_to_start-le out max_output),
        inr (omega (arith, size, back_to_start-ge out max_output j le start)),
      )
]
