-- ===== src/Apply/Exclusion.antt =====
-- apply.go: two requests for one incident do not both go ahead.
use incident_controller.Prelude.{
  sym, subst, All, true, false, List, [], ◌∷◌, ◌≡◌, ◌≢◌, ◌⊎◌, inl, inr, arith, In, text_eq_iff,
  text_ltb_total,
}
use incident_controller.Api.Meta.{was_deleted}
use incident_controller.Api.IncidentApply.{IncidentApply, terminal}
use incident_controller.Apply.Requests.{older, skipped, goes_first, busy_in}

-- A request that may still run.
pub record IsPending (ia : IncidentApply) : Type 0 where
  pub unfinished : terminal ia.status.phase ≡ false
  pub kept : was_deleted ia.meta ≡ false

busy_in-head :
    (ia o : IncidentApply) (l : List IncidentApply)
    → o.meta.name ≢ []
    → busy_in ia (o ∷ l) ≡ []
    → (skipped ia o ≡ true ⊎ goes_first ia o ≡ false) × (busy_in ia l ≡ [])
unfolding busy_in
busy_in-head ia o l n b = ground (arith, n)

unfoldable pub HasName : IncidentApply → Type 0
HasName ia = ia.meta.name ≢ []

busy_in-In :
    (ia o : IncidentApply) (l : List IncidentApply)
    → In o l
    → All HasName l
    → busy_in ia l ≡ []
    → skipped ia o ≡ true ⊎ goes_first ia o ≡ false
unfolding HasName
busy_in-In ia o [] i n b = absurd i
busy_in-In ia o (q ∷ l) (inl e) n b =
    subst (λ r. skipped ia r ≡ true ⊎ goes_first ia r ≡ false) (sym e) (busy_in-head ia q l n.0 b).0
busy_in-In ia o (q ∷ l) (inr i) n b = busy_in-In ia o l i n.1 (busy_in-head ia q l n.0 b).1

-- If two pending requests for one incident are both listed and neither is held up by the other,
-- they are the same request, as long as every request listed has a name and these two do not
-- share one.
pub busy_in-exclusive :
    (a b : IncidentApply) (l : List IncidentApply)
    → In a l
    → In b l
    → All HasName l
    → IsPending a
    → IsPending b
    → a.spec.incident_ref.name ≡ b.spec.incident_ref.name
    → (a.meta.name ≡ b.meta.name → a.meta.uid ≡ b.meta.uid)
    → busy_in a l ≡ []
    → busy_in b l ≡ []
    → a.meta.uid ≡ b.meta.uid
unfolding skipped goes_first older
busy_in-exclusive a b l i j n h k same unique f g = ground (
  arith,
  unique,
  busy_in-In a b l j n f,
  busy_in-In b a l i n g,
  h.unfinished,
  h.kept,
  k.unfinished,
  k.kept,
  text_eq_iff a.meta.uid b.meta.uid,
  text_eq_iff b.meta.uid a.meta.uid,
  text_eq_iff a.spec.incident_ref.name b.spec.incident_ref.name,
  text_eq_iff b.spec.incident_ref.name a.spec.incident_ref.name,
  text_ltb_total a.meta.name b.meta.name,
)
