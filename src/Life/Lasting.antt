-- ===== src/Life/Lasting.antt =====
-- That an Incident stays well formed, and ended, for all its life.
use incident_controller.Prelude.{◌≡◌, ◌⊎◌, inl, inr, sym, subst, ap, ◌∙◌, refl, none, arith}
use incident_controller.Api.Incident.{Incident, IncidentStatus, State}
use incident_controller.Platform.{Platform}
use incident_controller.Machine.Output.{Config}
use incident_controller.Machine.Verdicts.{record_apply}
use incident_controller.Machine.Lifecycle.{IsWellFormed, record_apply-IsWellFormed}
use incident_controller.Machine.Moves.{
  ◌⟶◌, ◌⟶*◌, fix_applied, verified, not_fixed, closed_by_user, then_to, here, ⟶*-refl,
  record_apply-⟶*,
}
use incident_controller.CheckPod.Sandbox.{CheckPods}
use incident_controller.Incident.Safety.{observe_live-IsWellFormed, observe_live-⟶*}
use incident_controller.Incident.Writes.{update-status}
use incident_controller.Apply.Access.{Libraries, ApiServer}
use incident_controller.Apply.Plan.{ApplyConfig}
use incident_controller.Apply.Writes.{update_apply-status}
use incident_controller.Life.World.{
  World, Step, Reach, check_written, apply_written, spec_edited, analysis_written, analysis_kept,
  unchanged, next, ◌⇒◌, checked, applied, begins, ends, again_open, again_verifying,
}

abbrev pub IsFinalFrom : State → State → Type 0
IsFinalFrom State.closed s = s ≡ State.closed
IsFinalFrom State.resolved s = (s ≡ State.resolved) ⊎ (s ≡ State.closed)
IsFinalFrom _ s = Unit {0}

-- Neither an edge of the lifecycle nor the writer leaves an ended state.
⟶-IsFinalFrom : (a : State) {b c : State} → b ⟶ c → IsFinalFrom a b → IsFinalFrom a c
⟶-IsFinalFrom State.closed fix_applied h = cc
⟶-IsFinalFrom State.closed verified h = cc
⟶-IsFinalFrom State.closed not_fixed h = cc
⟶-IsFinalFrom State.closed closed_by_user h = refl
⟶-IsFinalFrom State.resolved fix_applied h = ground arith
⟶-IsFinalFrom State.resolved verified h = inl refl
⟶-IsFinalFrom State.resolved not_fixed h = ground arith
⟶-IsFinalFrom State.resolved closed_by_user h = inr refl
⟶-IsFinalFrom _ e h = tt

⟶*-IsFinalFrom : (a : State) {b c : State} → b ⟶* c → IsFinalFrom a b → IsFinalFrom a c
⟶*-IsFinalFrom a here h = h
⟶*-IsFinalFrom a (then_to e path) h = ⟶*-IsFinalFrom a path (⟶-IsFinalFrom a e h)

⇒-IsFinalFrom : (a : State) {b c : State} → b ⇒ c → IsFinalFrom a b → IsFinalFrom a c
⇒-IsFinalFrom State.closed begins h = cc
⇒-IsFinalFrom State.closed ends h = cc
⇒-IsFinalFrom State.closed again_open h = cc
⇒-IsFinalFrom State.closed again_verifying h = cc
⇒-IsFinalFrom State.resolved begins h = ground arith
⇒-IsFinalFrom State.resolved ends h = ground arith
⇒-IsFinalFrom State.resolved again_open h = ground arith
⇒-IsFinalFrom State.resolved again_verifying h = ground arith
⇒-IsFinalFrom _ e h = tt

IsFinalFrom-refl : (a : State) → IsFinalFrom a a
IsFinalFrom-refl State.closed = refl
IsFinalFrom-refl State.resolved = inl refl
IsFinalFrom-refl _ = tt

-- The states that the writer leaves.
not_ended : {a b : State} → a ⇒ b → (b ≡ State.analyzing) ⊎ (b ≡ State.open_state)
not_ended begins = inl refl
not_ended ends = inr refl
not_ended again_open = inl refl
not_ended again_verifying = inl refl

written-IsWellFormed :
    (a : State) (s : IncidentStatus)
    → a ⇒ s.state
    → s.verifying_since ≡ none
    → s.resolution ≡ none
    → IsWellFormed s
written-IsWellFormed a s e since res = elim (not_ended e) [
  | inl at ↦ record { window = ground arith; ended = ground arith }
  | inr at ↦ record { window = ground arith; ended = ground arith }
]

module _ ⦃p : Platform⦄ ⦃lib : Libraries⦄ (cfg : Config) (pods : CheckPods) (api : ApiServer)
    (apply_cfg : ApplyConfig) where
  -- The state moves along the lifecycle, and the status stays well formed.
  abbrev Operation : World → World → Type 0
  Operation w v =
      (w.inc.status.state ⟶* v.inc.status.state)
      × (IsWellFormed w.inc.status → IsWellFormed v.inc.status)

  -- What holds of the status that an operation leaves holds of the one that is stored.
  carried :
      (w v : World) (inc : Incident)
      → v.inc.status ≡ inc.status
      → w.inc.status.state ⟶* inc.status.state
      → (IsWellFormed w.inc.status → IsWellFormed inc.status)
      → Operation w v
  carried w v inc e path keep = (
    subst (λ (t : IncidentStatus). w.inc.status.state ⟶* t.state) (sym e) path,
    λ h. subst IsWellFormed (sym e) (keep h),
  )

  kept-IsWellFormed :
      (s t : IncidentStatus)
      → t.state ≡ s.state
      → t.verifying_since ≡ s.verifying_since
      → t.resolution ≡ s.resolution
      → IsWellFormed s
      → IsWellFormed t
  kept-IsWellFormed s t e since res h = record {
    window = rw (e, since) h.window;
    ended = rw (e, res) h.ended;
  }

  Step-cases :
      (w v : World)
      → Step cfg pods api apply_cfg w v
      → Operation w v
        ⊎ ((w.inc.status.state ⇒ v.inc.status.state)
            × (v.inc.status.verifying_since ≡ none)
            × (v.inc.status.resolution ≡ none))
  Step-cases w v (check_written now runs listed srv new i s sp ch ran) =
      let o = checked cfg pods api apply_cfg now runs listed w in
      inl (
        carried w v o.inc
          (s ∙ ap (λ (t : Incident). t.status) (update-status ⦃srv = srv⦄ o.inc pods o.plan new i))
          (observe_live-⟶* cfg now w.inc runs listed)
          (observe_live-IsWellFormed cfg now w.inc runs listed))
  Step-cases w v (apply_written now answers ia pod srv new g i f s sp ch ran) =
      let o = applied cfg pods api apply_cfg now answers ia in
      let (inc, r, got, run, e) = update_apply-status ⦃srv = srv⦄ o.plan o.ia new i in
      let by = o.ia.spec.requested_by.username in
      inl (
        carried w v (record_apply w.inc r by).0 (cc (s, e, got, g)) (record_apply-⟶* w.inc r by)
          (record_apply-IsWellFormed w.inc r by))
  Step-cases w v (spec_edited s k) = inl (carried w v w.inc s (⟶*-refl w.inc.status.state) (λ h. h))
  Step-cases w v (analysis_kept s since res k) = inl (
    subst (λ (t : State). w.inc.status.state ⟶* t) (sym s) (⟶*-refl w.inc.status.state),
    kept-IsWellFormed w.inc.status v.inc.status s since res,
  )
  Step-cases w v (analysis_written e since res k) = inr (e, since, res)

  -- However the two controllers, people and the writer take turns, and whatever the servers answer,
  -- a well-formed status stays well formed.
  pub Reach-IsWellFormed :
      (w v : World)
      → Reach cfg pods api apply_cfg w v
      → IsWellFormed w.inc.status
      → IsWellFormed v.inc.status
  Reach-IsWellFormed w v unchanged h = h
  Reach-IsWellFormed w v (next {v = x} r s) h =
      let kept = Reach-IsWellFormed w x r h in
      elim (Step-cases x v s) [
        | inl (path, keep) ↦ keep kept
        | inr (e, since, res) ↦ written-IsWellFormed x.inc.status.state v.inc.status e since res
      ]

  -- An ended incident stays so: a Closed one is Closed for good, and a Resolved one stays Resolved
  -- until it is Closed.
  pub Reach-IsFinalFrom :
      (w v : World)
      → Reach cfg pods api apply_cfg w v
      → IsFinalFrom w.inc.status.state v.inc.status.state
  Reach-IsFinalFrom w v unchanged = IsFinalFrom-refl w.inc.status.state
  Reach-IsFinalFrom w v (next {v = x} r s) =
      let kept = Reach-IsFinalFrom w x r in
      elim (Step-cases x v s) [
        | inl (path, keep) ↦ ⟶*-IsFinalFrom w.inc.status.state path kept
        | inr (e, since, res) ↦ ⇒-IsFinalFrom w.inc.status.state e kept
      ]
