-- ===== src/Incident/UpToDate.antt =====
-- incident.go: an incident is up to date exactly when Update has nothing to call.
use incident_controller.Prelude.{
  ◌||◌, not, ℕ, ◌+◌, ◌≤◌, ◌≡◌, inl, inr, refl, true, false, List, [], ◌∷◌, length, arith,
  if◌then◌else◌, Bool-cases,
}
use incident_controller.Api.Incident.{Incident}
use incident_controller.Api.Pod.{Pod}
use incident_controller.Platform.{Platform}
use incident_controller.Server.{
  update_status, Server, Call, Outcome, Io, ok, err, continue_with, pure, emit, delete_pod,
}
use incident_controller.Machine.Transitions.{Change}
use incident_controller.CheckPod.Sandbox.{CheckPods}
use incident_controller.Incident.Plan.{Plan}
use incident_controller.Incident.Observe.{is_nil, out_of_date}
use incident_controller.Incident.Update.{
  announce_all, persist, persist_status, reset_applied, delete_pods, start_check, create_or_read,
  update,
}
use incident_controller.Machine.Checks.{current_script}

-- A step makes a call, or at least keeps those before it.
abbrev Calls : {A : Type 0} → Io A → Type 0
Calls m = (h : List Call) → 1 + length h ≤ length (m h).1

abbrev Grows : {A : Type 0} → Io A → Type 0
Grows m = (h : List Call) → length h ≤ length (m h).1

bind-Grows :
    {A B : Type 0} (n : ℕ) (r : Outcome A × List Call) (k : A → Io B)
    → n ≤ length r.1
    → ((a : A) → Grows (k a))
    → n ≤ length (continue_with r k).1
bind-Grows n (ok a, h) k le more = let m = more a h in omega arith
bind-Grows n (err e, h) k le more = le

bind_later :
    {A B : Type 0} (n : ℕ) (r : Outcome A × List Call) (k : A → Io B) (a : A) (h : List Call)
    → r ≡ (ok a, h)
    → n ≤ length (k a h).1
    → n ≤ length (continue_with r k).1
bind_later n r k a h e le = rw e le

announce_all-Grows : (cs : List Change) → Grows (announce_all cs)
unfolding announce_all
announce_all-Grows [] h = omega arith
announce_all-Grows (c ∷ cs) h =
    let m = announce_all-Grows cs (emit c.reason c.message ∷ h) in ground arith

module _ ⦃srv : Server⦄ where
  delete_pods-Grows : (pods : List Pod) → Grows (delete_pods pods)
  unfolding delete_pods
  delete_pods-Grows [] h = omega arith
  delete_pods-Grows (pod ∷ pods) h = ground (arith, delete_pods-Grows pods (delete_pod pod ∷ h))

  delete_pods-Calls : (pod : Pod) (pods : List Pod) → Calls (delete_pods (pod ∷ pods))
  unfolding delete_pods
  delete_pods-Calls pod pods h = ground (arith, delete_pods-Grows pods (delete_pod pod ∷ h))

  persist-Calls : (plan : Plan) (inc : Incident) → plan.dirty ≡ true → Calls (persist plan inc)
  unfolding persist persist_status
  persist-Calls plan inc d h =
      ground (arith, announce_all-Grows plan.changes (update_status inc ∷ h))

  delete_pods-nil : (h : List Call) → delete_pods [] h ≡ (ok tt, h)
  unfolding delete_pods
  delete_pods-nil h = refl

  persist-Grows : (plan : Plan) (inc : Incident) → Grows (persist plan inc)
  unfolding persist persist_status
  persist-Grows plan inc h = ground (arith, announce_all-Grows plan.changes (update_status inc ∷ h))

  persist-none :
      (plan : Plan) (inc : Incident) (h : List Call)
      → plan.dirty ≡ false
      → persist plan inc h ≡ (ok inc, h)
  unfolding persist
  persist-none plan inc h d = ground arith

  reset_applied-none :
      (plan : Plan) (inc : Incident) (h : List Call)
      → plan.consume_applied ≡ false
      → reset_applied plan inc h ≡ (ok inc, h)
  unfolding reset_applied
  reset_applied-none plan inc h d = ground arith

  reset_applied-Grows : (plan : Plan) (inc : Incident) → Grows (reset_applied plan inc)
  unfolding reset_applied
  reset_applied-Grows plan inc h = ground arith

module _ ⦃p : Platform⦄ ⦃srv : Server⦄ (pods : CheckPods) (plan : Plan) where
  -- The last step of Update.
  abbrev start_due : Incident → Io (Unit {0})
  start_due inc = if plan.due then start_check pods inc (current_script inc) plan.from else pure tt

  start_due-Grows : (inc : Incident) → Grows (start_due inc)
  unfolding start_check create_or_read
  start_due-Grows inc h = ground arith

  start_due-Calls : (inc : Incident) → plan.due ≡ true → Calls (start_due inc)
  unfolding start_check create_or_read
  start_due-Calls inc d h = ground arith

  after_reset-calls :
      (inc : Incident) (stale : List Pod)
      → not (is_nil stale) || plan.due ≡ true
      → 1 ≤ length (continue_with (delete_pods stale []) (λ _. start_due inc)).1
  after_reset-calls inc (pod ∷ stale) o =
      bind-Grows 1 (delete_pods (pod ∷ stale) []) _
        (let m = delete_pods-Calls pod stale [] in omega arith) (λ _. start_due-Grows inc)
  after_reset-calls inc [] o =
      bind_later 1 (delete_pods [] []) _ tt [] (delete_pods-nil [])
        (let m = start_due-Calls inc (ground arith) [] in omega arith)

  -- Something to write is written, something stale is deleted, and a due check is started.
  pub update-calls :
      (inc : Incident)
      → out_of_date plan ≡ true
      → (plan.dirty ≡ false → plan.consume_applied ≡ false)
      → 1 ≤ length (update pods plan inc []).1
  unfolding update
  update-calls inc o c = elim (Bool-cases plan.dirty) [
    | inl d ↦
        bind-Grows 1 (persist plan inc []) _ (let m = persist-Calls plan inc d [] in omega arith)
          (λ j h.
            bind-Grows (length h) (reset_applied plan j h) _ (reset_applied-Grows plan j h) (λ k h₁.
              bind-Grows (length h₁) (delete_pods plan.stale h₁) _ (delete_pods-Grows plan.stale h₁)
                (λ _. start_due-Grows k)))
    | inr d ↦ bind_later 1 (persist plan inc []) _ inc [] (persist-none plan inc [] d) (
        bind_later 1 (reset_applied plan inc []) _ inc [] (reset_applied-none plan inc [] (c d))
          (after_reset-calls inc plan.stale (ground arith)))
  ]

  -- Where there is nothing of the kind, Update calls nothing.
  pub update-nothing :
      (inc : Incident)
      → out_of_date plan ≡ false
      → (plan.dirty ≡ false → plan.consume_applied ≡ false)
      → update pods plan inc [] ≡ (ok tt, [])
  unfolding update persist reset_applied delete_pods
  update-nothing inc o c = ground arith
