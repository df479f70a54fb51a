-- ===== src/Apply/Once.antt =====
-- apply.go: the life of one request in the cluster, and that its script runs once.
use incident_controller.Prelude.{
  ◌⊎◌, ℕ, suc, ◌≤◌, true, not, ◌&&◌, ◌||◌, ◌==◌, Option, none, some, [], ◌≡◌, ◌≢◌, arith, In,
}
use incident_controller.Api.Meta.{was_deleted, Time}
use incident_controller.Api.IncidentApply.{IncidentApply, ApplyPhase}
use incident_controller.Api.Pod.{Pod}
use incident_controller.Platform.{Platform}
use incident_controller.Server.{Server, Fetched, found, fault, not_found, create_pod, patch_apply}
use incident_controller.CheckPod.Sandbox.{CheckPods}
use incident_controller.Apply.Access.{Libraries, ApiServer}
use incident_controller.Apply.Plan.{ApplyConfig, is_some, Observed}
use incident_controller.Apply.Observe.{Answers, observe_apply, is_unset}
use incident_controller.Apply.Carry.{create_apply, update_apply}
use incident_controller.Apply.Phases.{↝*-unset, observe_apply-↝*, observe_apply-start}
use incident_controller.Apply.Patches.{create_apply-In, update_apply-patch}

-- A request as it is stored, its apply pod where there is one, and how often one was created.
pub record World : Type 0 where
  pub ia : IncidentApply
  pub pod : Option Pod
  pub runs : ℕ

-- A read of the pod past the cache.
abbrev pub read_pod : Option Pod → Fetched Pod
read_pod none = fault not_found
read_pod (some pod) = found pod

-- A deletion is not taken back.
abbrev pub StaysDeleted : World → World → Type 0
StaysDeleted w v = was_deleted w.ia.meta ≡ true → was_deleted v.ia.meta ≡ true

module _ ⦃p : Platform⦄ ⦃lib : Libraries⦄ (api : ApiServer) (cfg : ApplyConfig)
    (pods : CheckPods) where
  -- What an Observe leaves in memory.
  abbrev pub after_observe : Answers → Time → IncidentApply → Observed
  after_observe answers now ia = (observe_apply api cfg answers now ia).0

  -- What can happen. The controller acts at any time on an Observe that read the request and the
  -- pod as they are and anything else in any way, against a server that answers in any way: it creates the pod, or
  -- patches the status. Meanwhile the pod changes, or goes, once the status says that the
  -- request runs, or the request is being deleted; and all else of the request may change.
  pub data Step (w v : World) : Type 0 where
    creates :
        (answers : Answers) (now : Time) (srv : Server) (pod : Pod)
        → answers.pod ≡ read_pod w.pod
        → In
            (create_pod pod)
            (create_apply ⦃srv = srv⦄ pods cfg.timeout
              (after_observe answers now w.ia).plan
              (after_observe answers now w.ia).ia
              []).1
        → v.ia.status ≡ w.ia.status
        → v.pod ≡ some pod
        → v.runs ≡ suc w.runs
        → StaysDeleted w v
        → Step w v
    patches :
        (answers : Answers) (now : Time) (srv : Server) (base new : IncidentApply)
        → answers.pod ≡ read_pod w.pod
        → In
            (patch_apply base new)
            (update_apply ⦃srv = srv⦄
              (after_observe answers now w.ia).plan
              (after_observe answers now w.ia).ia
              []).1
        → v.ia.status ≡ new.status
        → v.pod ≡ w.pod
        → v.runs ≡ w.runs
        → StaysDeleted w v
        → Step w v
    pod_changes :
        v.ia.status ≡ w.ia.status
        → is_some v.pod ≡ is_some w.pod
        → v.runs ≡ w.runs
        → StaysDeleted w v
        → Step w v
    pod_goes :
        (w.ia.status.phase ≢ ApplyPhase.unset) ⊎ (was_deleted w.ia.meta ≡ true)
        → v.ia.status ≡ w.ia.status
        → v.pod ≡ none
        → v.runs ≡ w.runs
        → StaysDeleted w v
        → Step w v

  pub data Reach (w : World) : World → Type 0 where
    here : Reach w w
    next : {v u : World} → Reach w v → Step v u → Reach w u

  -- Nothing ran; or a run was started once, and its pod, the phase or the deletion bars another.
  abbrev IsOnce : World → Type 0
  IsOnce w =
      (w.runs == 0
        || w.runs == 1
          && (is_some w.pod || not (is_unset w.ia.status.phase) || was_deleted w.ia.meta))
      ≡ true

  Step-IsOnce : (w v : World) → Step w v → IsOnce w → IsOnce v
  Step-IsOnce w v (creates answers now srv pod r i s q n d) h =
      let o = after_observe answers now w.ia in
      let ((start, e), _) = create_apply-In ⦃srv = srv⦄ pods cfg.timeout o.plan o.ia pod i in
      ground (arith, observe_apply-start api cfg answers now w.ia start e)
  Step-IsOnce w v (patches answers now srv base new r i s q n d) h =
      let o = after_observe answers now w.ia in
      let same = update_apply-patch ⦃srv = srv⦄ o.ia o.plan base new i in
      let path = observe_apply-↝* api cfg answers now w.ia in ground (arith, same, ↝*-unset path)
  Step-IsOnce w v (pod_changes s q n d) h = ground arith
  Step-IsOnce w v (pod_goes g s q n d) h = ground arith

  Reach-IsOnce : (w v : World) → Reach w v → IsOnce w → IsOnce v
  Reach-IsOnce w v here h = h
  Reach-IsOnce w v (next {v = x} r s) h = Step-IsOnce x v s (Reach-IsOnce w x r h)

  -- However the controller and the cluster take turns, and whatever fails, the apply pod of a
  -- request is created at most once, as long as each reconcile acts on the request and the pod as
  -- they are stored, and the pod is not deleted before the status says that the request runs or the
  -- request is itself being deleted.
  pub Reach-runs : (w v : World) → w.runs ≡ 0 → Reach w v → v.runs ≤ 1
  Reach-runs w v e r = ground (arith, Reach-IsOnce w v r)
