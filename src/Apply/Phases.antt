-- ===== src/Apply/Phases.antt =====
-- apply.go: the phases that Observe moves a request through.
use incident_controller.Prelude.{subst, Bool, true, false, none, some, ◌≡◌, refl, arith}
use incident_controller.Api.Meta.{Time, was_deleted}
use incident_controller.Api.IncidentApply.{IncidentApply, ApplyPhase, terminal}
use incident_controller.Platform.{Platform}
use incident_controller.Server.{fault, not_found}
use incident_controller.Apply.Access.{Libraries, ApiServer, passes}
use incident_controller.Apply.Admission.{ApplyStart, admit}
use incident_controller.Apply.Plan.{ApplyConfig}
use incident_controller.Apply.Observe.{Answers, observe_apply}

-- The edges between phases, and the phases that they lead to.
infix 40 ◌↝◌ ◌↝*◌
pub data ◌↝◌ : ApplyPhase → ApplyPhase → Type 0 where
  begins : ApplyPhase.unset ↝ ApplyPhase.running
  turned_down : ApplyPhase.unset ↝ ApplyPhase.rejected
  succeeds : ApplyPhase.running ↝ ApplyPhase.succeeded
  breaks : ApplyPhase.running ↝ ApplyPhase.failed

pub data ◌↝*◌ : ApplyPhase → ApplyPhase → Type 0 where
  here : {a : ApplyPhase} → a ↝* a
  then_to : {a b c : ApplyPhase} → a ↝ b → b ↝* c → a ↝* c

-- Nothing leads on from a terminal phase.
pub ↝*-terminal : {a b : ApplyPhase} → a ↝* b → terminal a ≡ true → a ≡ b
unfolding terminal
↝*-terminal here t = refl
↝*-terminal (then_to begins r) t = cc
↝*-terminal (then_to turned_down r) t = cc
↝*-terminal (then_to succeeds r) t = cc
↝*-terminal (then_to breaks r) t = cc

-- A request that has a phase keeps one.
pub ↝*-unset : {a b : ApplyPhase} → a ↝* b → b ≡ ApplyPhase.unset → a ≡ ApplyPhase.unset
↝*-unset here e = e
↝*-unset (then_to begins r) e = refl
↝*-unset (then_to turned_down r) e = refl
↝*-unset (then_to succeeds r) e = let f = ↝*-unset r e in cc
↝*-unset (then_to breaks r) e = let f = ↝*-unset r e in cc

-- The same as a test.
abbrev follows : ApplyPhase → ApplyPhase → Bool
follows ApplyPhase.unset b = true
follows ApplyPhase.running ApplyPhase.running = true
follows ApplyPhase.running ApplyPhase.succeeded = true
follows ApplyPhase.running ApplyPhase.failed = true
follows ApplyPhase.succeeded ApplyPhase.succeeded = true
follows ApplyPhase.failed ApplyPhase.failed = true
follows ApplyPhase.rejected ApplyPhase.rejected = true
follows _ _ = false

follows-↝* : (a b : ApplyPhase) → follows a b ≡ true → a ↝* b
follows-↝* ApplyPhase.unset ApplyPhase.unset h = here
follows-↝* ApplyPhase.unset ApplyPhase.running h = then_to begins here
follows-↝* ApplyPhase.unset ApplyPhase.succeeded h = then_to begins (then_to succeeds here)
follows-↝* ApplyPhase.unset ApplyPhase.failed h = then_to begins (then_to breaks here)
follows-↝* ApplyPhase.unset ApplyPhase.rejected h = then_to turned_down here
follows-↝* ApplyPhase.running ApplyPhase.running h = here
follows-↝* ApplyPhase.running ApplyPhase.succeeded h = then_to succeeds here
follows-↝* ApplyPhase.running ApplyPhase.failed h = then_to breaks here
follows-↝* ApplyPhase.running ApplyPhase.unset h = cc
follows-↝* ApplyPhase.running ApplyPhase.rejected h = cc
follows-↝* ApplyPhase.succeeded b h =
    let e : ApplyPhase.succeeded ≡ b = ground arith in subst (λ c. ApplyPhase.succeeded ↝* c) e here
follows-↝* ApplyPhase.failed b h =
    let e : ApplyPhase.failed ≡ b = ground arith in subst (λ c. ApplyPhase.failed ↝* c) e here
follows-↝* ApplyPhase.rejected b h =
    let e : ApplyPhase.rejected ≡ b = ground arith in subst (λ c. ApplyPhase.rejected ↝* c) e here

module _ ⦃p : Platform⦄ ⦃lib : Libraries⦄ where
  -- Observe moves a request along the edges between phases, whatever it reads, and whether it
  -- returns an error or not.
  pub observe_apply-↝* :
      (api : ApiServer) (cfg : ApplyConfig) (answers : Answers) (now : Time) (ia : IncidentApply)
      → ia.status.phase ↝* (observe_apply api cfg answers now ia).0.ia.status.phase
  unfolding observe_apply terminal
  observe_apply-↝* api cfg answers now ia = follows-↝* _ _ (ground arith)

  -- A request in a terminal phase keeps its status but for the conditions, and is left alone but
  -- for its pod and its TTL.
  pub observe_apply-terminal :
      (api : ApiServer) (cfg : ApplyConfig) (answers : Answers) (now : Time) (ia : IncidentApply)
      → terminal ia.status.phase ≡ true
      → let after = (observe_apply api cfg answers now ia).0 in
        (after.ia.status ≡ record (ia.status) { conditions = after.ia.status.conditions })
        × (after.plan.dirty ≡ false)
        × (after.plan.run ≡ none)
        × (after.plan.start ≡ none)
  unfolding observe_apply terminal
  observe_apply-terminal api cfg answers now ia t = ground arith

  -- A run is started only for a request that is not being deleted, whose phase is not set and that
  -- has no pod; and only if its admission passes and no create was interrupted.
  pub observe_apply-start :
      (api : ApiServer) (cfg : ApplyConfig) (answers : Answers) (now : Time) (ia : IncidentApply)
      (start : ApplyStart)
      → let after = (observe_apply api cfg answers now ia).0 in
        after.plan.start ≡ some start
        → (was_deleted ia.meta ≡ false)
          × (ia.status.phase ≡ ApplyPhase.unset)
          × (answers.pod ≡ fault not_found)
          × (p.create_incomplete ia.meta ≡ false)
          × (admit api cfg.timeout answers.admission after.ia now ≡ passes start)
  unfolding observe_apply
  observe_apply-start api cfg answers now ia start e = ground arith
