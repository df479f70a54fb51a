-- ===== src/Incident/Steps.antt =====
-- incident.go: what each step of an Update leaves when it reports no error.
use incident_controller.Prelude.{
  ◌⊎◌, ◌∙◌, sym, Bool-cases, true, false, List, [], ◌∷◌, ◌≡◌, inl, inr, refl, arith, All, In,
}
use incident_controller.Api.Incident.{Incident}
use incident_controller.Api.Pod.{Pod}
use incident_controller.Calls.{continue_with-eq-ok, Keeps}
use incident_controller.Server.{
  found, pure, ◌>>◌, pod_not_deleted, ignore_not_found, issue, Server, Call, ok, update_status,
  update_incident, delete_pod, emit,
}
use incident_controller.Answered.{
  Answered-Keeps, StatusWritten, SpecWritten, Deleted, issue-Deleted,
}
use incident_controller.Machine.Transitions.{Change}
use incident_controller.Incident.Plan.{Plan}
use incident_controller.Incident.Update.{
  write_status_of, persist_status, persist, reset_applied, delete_pods, announce_all,
}

-- The event of each change is in the history.
abbrev pub Told : List Change → List Call → Type 0
Told cs h = All (λ (c : Change). In (emit c.reason c.message) h) cs

pub Told-Keeps : (cs : List Change) (h h' : List Call) → Keeps h h' → Told cs h → Told cs h'
Told-Keeps [] h h' k a = tt
Told-Keeps (c ∷ cs) h h' k a = (k _ a.0, Told-Keeps cs h h' k a.1)

pub announce_all-Told :
    (cs : List Change) (h h' : List Call)
    → announce_all cs h ≡ (ok tt, h')
    → Keeps h h' × Told cs h'
unfolding announce_all
announce_all-Told [] h h' e = (λ c m. ground arith, tt)
announce_all-Told (x ∷ cs) h h' e =
    let (kept, told) = announce_all-Told cs (emit x.reason x.message ∷ h) h' e in
    (λ c m. kept c (inr m), (kept _ (inl refl), told))

module _ ⦃srv : Server⦄ where
  -- Each pod is deleted, or not there.
  abbrev pub AllDeleted : List Pod → List Call → Type 0
  AllDeleted pods h = All (λ (pod : Pod). Deleted (delete_pod pod) h) pods

  pub AllDeleted-Keeps :
      (pods : List Pod) (h h' : List Call) → Keeps h h' → AllDeleted pods h → AllDeleted pods h'
  AllDeleted-Keeps [] h h' k a = tt
  AllDeleted-Keeps (pod ∷ pods) h h' k a =
      (Answered-Keeps _ _ h h' k a.0, AllDeleted-Keeps pods h h' k a.1)

  pub delete_pods-AllDeleted :
      (pods : List Pod) (h h' : List Call)
      → delete_pods pods h ≡ (ok tt, h')
      → Keeps h h' × AllDeleted pods h'
  unfolding delete_pods
  delete_pods-AllDeleted [] h h' e = (λ c m. ground arith, tt)
  delete_pods-AllDeleted (pod ∷ pods) h h' e =
      let wrap = pod_not_deleted pod.meta.name in
      let (_, h₁, first, rest) =
        continue_with-eq-ok (issue (delete_pod pod) (ignore_not_found wrap) h)
          (λ _. delete_pods pods) tt h' e in
      let (kept, gone) = issue-Deleted (delete_pod pod) wrap h h₁ first in
      let (kept', all) = delete_pods-AllDeleted pods h₁ h' rest in
      (λ c m. kept' c (kept c m), (Answered-Keeps _ _ h₁ h' kept' gone, all))

  persist_status-done :
      (plan : Plan) (inc after : Incident) (h h' : List Call)
      → persist_status plan inc h ≡ (ok after, h')
      → Keeps h h' × StatusWritten inc h' × Told plan.changes h'
  unfolding persist_status
  persist_status-done plan inc after h h' e =
      let (written, h₁, first, rest) =
        continue_with-eq-ok (write_status_of inc h) (λ w. announce_all plan.changes >> pure w) after
          h' e in
      let (_, h₂, told, last) =
        continue_with-eq-ok (announce_all plan.changes h₁) (λ _. pure written) after h' rest in
      let same : h₂ ≡ h' = ground arith in
      let old : h₁ ≡ update_status inc ∷ h = ground arith in
      let (kept, events) = announce_all-Told plan.changes h₁ h₂ told in
      let took : srv.write_status h inc ≡ found written = ground arith in
      rw (← same)
        (λ c m. kept c (rw old (inr m)), (h, (written, took), λ c m. kept c (rw old m)), events)

  abbrev pub without_applied : Incident → Incident
  without_applied inc = record inc { spec = record (inc.spec) { applied = false } }

  -- The incident in memory once its status is written: the server's copy, where there was something
  -- to write.
  abbrev pub IsPersisted : Plan → Incident → Incident → Type 0
  IsPersisted plan inc i =
      ((plan.dirty ≡ false) × (i ≡ inc))
      ⊎ ((before : List Call) × (srv.write_status before inc ≡ found i))

  pub persist-IsPersisted :
      (plan : Plan) (inc after : Incident) (h h' : List Call)
      → persist plan inc h ≡ (ok after, h')
      → IsPersisted plan inc after
  unfolding persist persist_status
  persist-IsPersisted plan inc after h h' e = elim (Bool-cases plan.dirty) [
    | inl d ↦
        let (w, h₁, first, rest) =
          continue_with-eq-ok (write_status_of inc h) (λ w. announce_all plan.changes >> pure w)
            after h' (sym (rw d refl) ∙ e) in
        let (_, h₂, told, last) =
          continue_with-eq-ok (announce_all plan.changes h₁) (λ _. pure w) after h' rest in
        let same : w ≡ after = ground arith in
        let took : srv.write_status h inc ≡ found w = ground arith in inr (h, rw (← same) took)
    | inr d ↦ inl (d, ground arith)
  ]

  -- And once spec.applied is set back.
  abbrev pub IsReset : Plan → Incident → Incident → Type 0
  IsReset plan i k =
      ((plan.consume_applied ≡ false) × (k ≡ i))
      ⊎ ((before : List Call) × (srv.write_incident before (without_applied i) ≡ found k))

  pub reset_applied-IsReset :
      (plan : Plan) (inc after : Incident) (h h' : List Call)
      → reset_applied plan inc h ≡ (ok after, h')
      → IsReset plan inc after
  unfolding reset_applied
  reset_applied-IsReset plan inc after h h' e = elim (Bool-cases plan.consume_applied) [
    | inl d ↦ inr (h, ground arith)
    | inr d ↦ inl (d, ground arith)
  ]

  pub persist-done :
      (plan : Plan) (inc after : Incident) (h h' : List Call)
      → persist plan inc h ≡ (ok after, h')
      → Keeps h h' × (plan.dirty ≡ true → StatusWritten inc h' × Told plan.changes h')
  unfolding persist
  persist-done plan inc after h h' e = elim (Bool-cases plan.dirty) [
    | inl d ↦
        let done = persist_status-done plan inc after h h' (sym (rw d refl) ∙ e) in
        (done.0, λ _. (done.1, done.2))
    | inr d ↦ (λ c m. ground arith, λ d'. cc)
  ]

  pub reset_applied-done :
      (plan : Plan) (inc after : Incident) (h h' : List Call)
      → reset_applied plan inc h ≡ (ok after, h')
      → Keeps h h' × (plan.consume_applied ≡ true → SpecWritten (without_applied inc) h')
  unfolding reset_applied
  reset_applied-done plan inc after h h' e = elim (Bool-cases plan.consume_applied) [
    | inl d ↦
        let old : h' ≡ update_incident (without_applied inc) ∷ h = ground arith in
        let took : srv.write_incident h (without_applied inc) ≡ found after = ground arith in
        (λ c m. rw old (inr m), λ _. (h, (after, took), λ c m. rw old m))
    | inr d ↦ (λ c m. ground arith, λ d'. cc)
  ]
