-- ===== src/Answered.antt =====
-- Calls that a server has accepted: each stands in the history, with the answer that it got.
use incident_controller.Prelude.{◌⊎◌, inr, none, some, List, ◌∷◌, ◌≡◌, arith}
use incident_controller.Api.Incident.{Incident}
use incident_controller.Api.IncidentApply.{IncidentApply}
use incident_controller.Api.Pod.{Pod}
use incident_controller.Server.{
  Server, Call, Fault, Error, found, fault, ok, not_found, already_exists, update_status,
  update_incident, patch_apply, create_pod, issue, ignore_not_found, ignore_already_exists,
  write_or_read,
}
use incident_controller.Calls.{Keeps}

-- The history has a call, and the answer that the server gave it where it was made is such.
abbrev pub Answered : Call → (List Call → Type 0) → List Call → Type 0
Answered c P h = (before : List Call) × P before × Keeps (c ∷ before) h

pub Answered-Keeps :
    (c : Call) (P : List Call → Type 0) (h h' : List Call)
    → Keeps h h'
    → Answered c P h
    → Answered c P h'
Answered-Keeps c P h h' k (before, a, s) = (before, a, λ d m. k d (s d m))

module _ ⦃srv : Server⦄ where
  -- The status, the spec and the patch that the server took.
  abbrev pub StatusWritten : Incident → List Call → Type 0
  StatusWritten inc =
      Answered (update_status inc) (λ h. (w : Incident) × (srv.write_status h inc ≡ found w))

  abbrev pub SpecWritten : Incident → List Call → Type 0
  SpecWritten inc =
      Answered (update_incident inc) (λ h. (w : Incident) × (srv.write_incident h inc ≡ found w))

  abbrev pub Patched : IncidentApply → IncidentApply → List Call → Type 0
  Patched base ia =
      Answered (patch_apply base ia)
        (λ h. (w : IncidentApply) × (srv.write_apply h base ia ≡ found w))

  -- What is to be deleted is deleted or not there, and what is to be created is there.
  abbrev pub Deleted : Call → List Call → Type 0
  Deleted c = Answered c (λ h. (srv.write h c ≡ none) ⊎ (srv.write h c ≡ some not_found))

  abbrev pub Created : Call → List Call → Type 0
  Created c = Answered c (λ h. (srv.write h c ≡ none) ⊎ (srv.write h c ≡ some already_exists))

  -- The pod that was made of one, or that was there under its name and was read.
  abbrev pub PodCreated : Pod → Pod → List Call → Type 0
  PodCreated pod made = Answered (create_pod pod) (λ h.
      (srv.write_pod h pod ≡ found made)
      ⊎ ((srv.write_pod h pod ≡ fault already_exists)
          × (srv.get_pod (create_pod pod ∷ h) pod.meta.namespace pod.meta.name ≡ found made)))

  pub issue-Deleted :
      (c : Call) (wrap : Fault → Error) (h h' : List Call)
      → issue c (ignore_not_found wrap) h ≡ (ok tt, h')
      → Keeps h h' × Deleted c h'
  issue-Deleted c wrap h h' e =
      let old : h' ≡ c ∷ h = ground arith in
      (λ d m. rw old (inr m), (h, ground arith, λ d m. rw old m))

  pub issue-Created :
      (c : Call) (wrap : Fault → Error) (h h' : List Call)
      → issue c (ignore_already_exists wrap) h ≡ (ok tt, h')
      → Keeps h h' × Created c h'
  issue-Created c wrap h h' e =
      let old : h' ≡ c ∷ h = ground arith in
      (λ d m. rw old (inr m), (h, ground arith, λ d m. rw old m))

  pub write_or_read-PodCreated :
      (created read : Fault → Error) (pod made : Pod) (h h' : List Call)
      → write_or_read created read pod h ≡ (ok made, h')
      → Keeps h h' × PodCreated pod made h'
  write_or_read-PodCreated created read pod made h h' e =
      let old : h' ≡ create_pod pod ∷ h = ground arith in
      (λ d m. rw old (inr m), (h, ground arith, λ d m. rw old m))
