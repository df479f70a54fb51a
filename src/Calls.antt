-- ===== src/Calls.antt =====
-- Histories of calls: the order of the calls of a step, and what a step that succeeds has called.
use incident_controller.Prelude.{
  ◌⊎◌, inr, sym, subst, inl, ℕ, ◌≤◌, List, [], ◌∷◌, ◌≡◌, refl, arith, All, In,
}
use incident_controller.Server.{Call, Io, Outcome, ok, err, continue_with}

module _ (place : Call → ℕ) where
  -- A history, newest first, in which no call stands behind one of a later place.
  abbrev pub InOrder : ℕ → List Call → Type 0
  InOrder n [] = Unit
  InOrder n (c ∷ h) = (place c ≤ n) × InOrder (place c) h

  pub InOrder-mono : (m n : ℕ) (h : List Call) → m ≤ n → InOrder m h → InOrder n h
  InOrder-mono m n [] le o = tt
  InOrder-mono m n (c ∷ h) le o = (omega arith, o.1)

  -- A step that follows another may place its calls as early as that one places its last.
  pub bind-InOrder :
      {A B : Type 0} (a b : ℕ) (r : Outcome A × List Call) (k : A → Io B)
      → a ≤ b
      → InOrder a r.1
      → ((x : A) (h : List Call) → InOrder a h → InOrder b (k x h).1)
      → InOrder b (continue_with r k).1
  bind-InOrder a b (ok x, h) k le o next = next x h o
  bind-InOrder a b (err e, h) k le o next = InOrder-mono a b h le o

-- What holds of every call of a step and of the step after it holds of every call of the two.
pub bind-All :
    {A B : Type 0} (P : Call → Type 0) (r : Outcome A × List Call) (k : A → Io B)
    → All P r.1
    → ((x : A) (h : List Call) → All P h → All P (k x h).1)
    → All P (continue_with r k).1
bind-All P (ok x, h) k o next = next x h o
bind-All P (err e, h) k o next = o

-- A sequence that succeeds is two steps that do.
pub continue_with-eq-ok :
    {A B : Type 0} (r : Outcome A × List Call) (k : A → Io B) (b : B) (h' : List Call)
    → continue_with r k ≡ (ok b, h')
    → (a : A) × (h : List Call) × (r ≡ (ok a, h)) × (k a h ≡ (ok b, h'))
continue_with-eq-ok (ok a, h) k b h' e = (a, h, refl, e)
continue_with-eq-ok (err x, h) k b h' e = cc

-- The second history keeps every call of the first.
abbrev pub Keeps : List Call → List Call → Type 0
Keeps h h' = (c : Call) → In c h → In c h'

pub In-All : (P : Call → Type 0) (c : Call) (h : List Call) → In c h → All P h → P c
In-All P c [] i a = absurd i
In-All P c (d ∷ h) (inl e) a = subst P (sym e) a.0
In-All P c (d ∷ h) (inr i) a = In-All P c h i a.1

-- A call of a sequence is one of its first step, or that has succeeded and it is one of the second.
pub bind-In :
    {A B : Type 0} (c : Call) (r : Outcome A × List Call) (k : A → Io B)
    → In c (continue_with r k).1
    → In c r.1 ⊎ ((a : A) × (h : List Call) × (r ≡ (ok a, h)) × In c (k a h).1)
bind-In c (ok a, h) k i = inr (a, h, refl, i)
bind-In c (err e, h) k i = inl i
