-- ===== src/Apply/Expiry.antt =====
-- apply.go: a finished request comes back until its TTL has run out, and then goes.
use incident_controller.Prelude.{
  leb, zero, suc, inr, ◌⊎◌, suc, Text, Option, none, some, ◌≡◌, ◌≤◌, ◌<◌, ◌+◌, ◌*◌, ℕ, true, false,
  arith,
}
use incident_controller.Api.Meta.{was_deleted, Time, second}
use incident_controller.Api.IncidentApply.{IncidentApply, terminal}
use incident_controller.Api.Managed.{managed_apply}
use incident_controller.Platform.{Platform}
use incident_controller.Apply.Access.{Libraries, ApiServer}
use incident_controller.Apply.Plan.{ApplyConfig}
use incident_controller.Apply.Wait.{max_apply_requeue, apply_poll_interval_hook}
use incident_controller.Apply.Observe.{pod_error, Answers, observe_apply}
use incident_controller.Apply.Connect.{
  setup_apply-ttl, connect_apply, registered, setup_apply, ApplyExternal, apply_hook,
  ApplyRegistration,
}
use incident_controller.Apply.Setup.{File, RestConfig}
use incident_controller.Program.Options.{ApplyOptions}

-- The times at which a request that stays as it is comes back, each after the wait that the hook
-- asks for.
pub visit : ApplyRegistration → IncidentApply → Time → ℕ → Time
unfolding apply_hook
visit r ia now zero = now
visit r ia now (suc n) =
    let t = visit r ia now n in t + apply_hook r.hook_ttl (managed_apply ia) t r.poll_interval

module _ (r : ApplyRegistration) (ia : IncidentApply) (now finished : Time)
    (over : terminal ia.status.phase ≡ true) (at : ia.status.finished_at ≡ some finished) where
  -- The TTL has run out, or as many hours have passed as there were waits.
  visit-paced :
      (n : ℕ)
      → (finished + r.hook_ttl ≤ visit r ia now n)
        ⊎ (now + n * max_apply_requeue ≤ visit r ia now n)
  unfolding visit apply_hook apply_poll_interval_hook
  visit-paced zero = inr (ground arith)
  visit-paced (suc n) = ground (arith, visit-paced n)

  visit-prompt :
      (n : ℕ)
      → visit r ia now n < finished + r.hook_ttl
      → visit r ia now (suc n) < finished + r.hook_ttl + second
  unfolding visit apply_hook apply_poll_interval_hook
  visit-prompt n h = ground arith

module _ ⦃p : Platform⦄ ⦃lib : Libraries⦄ where
  -- Observe finds a finished request expired once its TTL has run out, where the read of its pod
  -- gives no error; it is then to be updated.
  observe_apply-expired :
      (api : ApiServer) (cfg : ApplyConfig) (answers : Answers) (now finished : Time)
      (ia : IncidentApply)
      → terminal ia.status.phase ≡ true
      → ia.status.finished_at ≡ some finished
      → was_deleted ia.meta ≡ false
      → pod_error answers.pod ≡ none
      → (observe_apply api cfg answers now ia).0.plan.expired ≡ leb (finished + cfg.ttl) now
  unfolding observe_apply terminal
  observe_apply-expired api cfg answers now finished ia t f d k = ground arith

  -- In a controller that was set up, a finished request that is not being deleted, and that comes
  -- back after each wait that the hook asks for, is found expired by a visit whose read of its pod
  -- gives no error, at the latest after as many waits as the TTL has left in hours,
  -- rounded up; and each visit finds that the TTL has run out, or the next one comes less than a
  -- second after it does.
  pub setup_apply-expires :
      (recorder clientset : Option Text) (rc : RestConfig) (files : Text → File)
      (complete : ApplyRegistration → Option Text) (o : ApplyOptions) (r : ApplyRegistration)
      (e : ApplyExternal) (answers : Answers) (ia : IncidentApply) (now finished : Time) (n k : ℕ)
      → setup_apply recorder rc files clientset complete o ≡ registered r
      → connect_apply r.connecter (managed_apply ia) ≡ some e
      → terminal ia.status.phase ≡ true
      → ia.status.finished_at ≡ some finished
      → was_deleted ia.meta ≡ false
      → pod_error answers.pod ≡ none
      → finished + e.cfg.ttl ≤ now + n * max_apply_requeue
      → ((observe_apply e.api e.cfg answers (visit r ia now n) ia).0.plan.expired ≡ true)
        × ((finished + e.cfg.ttl ≤ visit r ia now k)
            ⊎ (visit r ia now (suc k) < finished + e.cfg.ttl + second))
  setup_apply-expires recorder clientset rc files complete o r e answers ia now finished n k s c t f
        d g h =
      let same = setup_apply-ttl recorder clientset rc files complete o r e ia s c in
      (
        ground (
          arith,
          same,
          visit-paced r ia now finished t f n,
          observe_apply-expired e.api e.cfg answers (visit r ia now n) finished ia t f d g,
        ),
        ground (arith, same, visit-prompt r ia now finished t f k),
      )
