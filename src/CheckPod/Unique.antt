-- ===== src/CheckPod/Unique.antt =====
-- checkpod.go: the names of pods tell runs apart.
use incident_controller.Prelude.{
  ℕ, ◌-◌, ◌/◌, ◌≡◌, ◌≢◌, ◌⊎◌, ◌++◌, refl, sym, ap, ◌∙◌, subst, Text, [], ◌∷◌, arith, All, length,
  append-injective, bytes,
}
use incident_controller.Api.Meta.{Time, second}
use incident_controller.Api.Incident.{Incident, Script}
use incident_controller.Api.IncidentApply.{IncidentApply}
use incident_controller.CheckPod.Names.{
  decimal, unix_text, seq_text, check_name, apply_name, without_dashes, script_text, unix_epoch,
  short_uid,
}
use incident_controller.CheckPod.Digits.{IsDigit, read_digits, decimal-read, decimal-All}

append_cancel : (s t u : Text) → s ++ t ≡ s ++ u → t ≡ u
append_cancel s t u e = (append-injective s s t u refl e).1

pub decimal-injective : (m n : ℕ) → decimal m ≡ decimal n → m ≡ n
decimal-injective m n e = sym (decimal-read m) ∙ ap (read_digits 0) e ∙ decimal-read n

-- No number is written with a sign.
decimal-minus : (n : ℕ) (s : Text) → 0x2d ∷ s ≢ decimal n
decimal-minus n s e =
    let digits : All IsDigit (0x2d ∷ s) = subst (All IsDigit) (sym e) (decimal-All n) in
    omega (arith, digits.0.0)

unix_text-injective : (t u : Time) → unix_text t ≡ unix_text u → t / second ≡ u / second
unfolding unix_text
unix_text-injective t u e = ground (
  arith,
  decimal-injective (unix_epoch - t / second) (unix_epoch - u / second),
  decimal-injective (t / second - unix_epoch) (u / second - unix_epoch),
  decimal-minus (u / second - unix_epoch) (decimal (unix_epoch - t / second)),
  decimal-minus (t / second - unix_epoch) (decimal (unix_epoch - u / second)),
)

seq_text-ne : (from : Time) → from ≢ 0 → seq_text from ≡ unix_text from
unfolding seq_text
seq_text-ne from n = ground arith

-- The scripts that a check runs.
abbrev IsCheck : Script → Type 0
IsCheck s = (s ≡ Script.precondition) ⊎ (s ≡ Script.verify)

script_text-injective :
    (s s' : Script) (x y : Text)
    → IsCheck s
    → IsCheck s'
    → script_text s ++ x ≡ script_text s' ++ y
    → (s ≡ s') × (x ≡ y)
unfolding script_text bytes
script_text-injective s s' x y h k e = ground arith

-- Two check runs of one incident that fall due at known times have one name only if they are of
-- one script and their times agree to the second.
pub check_name-injective :
    (inc : Incident) (s s' : Script) (from from' : Time)
    → IsCheck s
    → IsCheck s'
    → from ≢ 0
    → from' ≢ 0
    → check_name inc s from ≡ check_name inc s' from'
    → (s ≡ s') × (from / second ≡ from' / second)
unfolding check_name
check_name-injective inc s s' from from' h k n n' e =
    let tail = append_cancel (bytes "-") _ _ (
      append_cancel (short_uid (without_dashes inc.meta.uid)) _ _
        (append_cancel (bytes "check-") _ _ e)) in
    let (same, rest) = script_text-injective s s' _ _ h k tail in
    let times = append_cancel (bytes "-") _ _ rest in
    (same, unix_text-injective from from' (sym (seq_text-ne from n) ∙ times ∙ seq_text-ne from' n'))

abbrev pub Dashless : Text → Type 0
Dashless = All (λ c. c ≢ 0x2d)

without_dashes-append :
    (s t : Text) → without_dashes (s ++ t) ≡ without_dashes s ++ without_dashes t
unfolding without_dashes
without_dashes-append [] t = refl
without_dashes-append (c ∷ s) t = ground (arith, without_dashes-append s t)

without_dashes-Dashless : (s : Text) → Dashless s → without_dashes s ≡ s
unfolding without_dashes
without_dashes-Dashless [] d = refl
without_dashes-Dashless (c ∷ s) d = ground (arith, d.0, without_dashes-Dashless s)

-- A group, and what follows a dash.
without_dashes-group :
    (s t : Text) → Dashless s → without_dashes (s ++ 0x2d ∷ t) ≡ s ++ without_dashes t
unfolding without_dashes
without_dashes-group s t d =
    without_dashes-append s (0x2d ∷ t)
    ∙ ap (λ x. x ++ without_dashes t) (without_dashes-Dashless s d)

-- A UUID: five groups of digits, of 8, 4, 4, 4 and 12, with dashes between them and none inside.
pub record IsUuid (uid : Text) : Type 0 where
  pub a : Text
  pub b : Text
  pub c : Text
  pub d : Text
  pub e : Text
  pub groups : uid ≡ a ++ 0x2d ∷ (b ++ 0x2d ∷ (c ++ 0x2d ∷ (d ++ 0x2d ∷ e)))
  pub dashless : Dashless a × Dashless b × Dashless c × Dashless d × Dashless e
  pub lengths : (length a ≡ 8) × (length b ≡ 4) × (length c ≡ 4) × (length d ≡ 4) × (length e ≡ 12)

without_dashes-IsUuid :
    (uid : Text) (u : IsUuid uid) → without_dashes uid ≡ u.a ++ (u.b ++ (u.c ++ (u.d ++ u.e)))
without_dashes-IsUuid uid u =
    let (da, db, dc, dd, de) = u.dashless in
    ap without_dashes u.groups
    ∙ without_dashes-group u.a _ da
    ∙ ap (λ x. u.a ++ x)
        (without_dashes-group u.b _ db
          ∙ ap (λ x. u.b ++ x)
              (without_dashes-group u.c _ dc
                ∙ ap (λ x. u.c ++ x)
                    (without_dashes-group u.d _ dd
                      ∙ ap (λ x. u.d ++ x) (without_dashes-Dashless u.e de))))

-- Two requests whose UIDs are UUIDs have apply pods of one name only if they are one request.
pub apply_name-injective :
    (ia ib : IncidentApply)
    → IsUuid ia.meta.uid
    → IsUuid ib.meta.uid
    → apply_name ia ≡ apply_name ib
    → ia.meta.uid ≡ ib.meta.uid
unfolding apply_name
apply_name-injective ia ib u v e =
    let bare : u.a ++ (u.b ++ (u.c ++ (u.d ++ u.e))) ≡ v.a ++ (v.b ++ (v.c ++ (v.d ++ v.e))) =
      sym (without_dashes-IsUuid ia.meta.uid u)
      ∙ append_cancel (bytes "apply-") _ _ e
      ∙ without_dashes-IsUuid ib.meta.uid v in
    let (a, r₁) = append-injective u.a v.a _ _ (u.lengths.0 ∙ sym v.lengths.0) bare in
    let (b, r₂) = append-injective u.b v.b _ _ (u.lengths.1 ∙ sym v.lengths.1) r₁ in
    let (c, r₃) = append-injective u.c v.c _ _ (u.lengths.2 ∙ sym v.lengths.2) r₂ in
    let (d, f) = append-injective u.d v.d _ _ (u.lengths.3 ∙ sym v.lengths.3) r₃ in
    u.groups ∙ rw (a, b, c, d, f) (sym v.groups)
