-- ===== src/Life/World.antt =====
-- The life of one Incident: what the two controllers, people and the writer of the analysis can do
-- to it (docs/overview.md says who writes what).
use incident_controller.Prelude.{[], ◌≡◌, List, [], ◌∷◌, ◌++◌, none, In}
use incident_controller.Api.Meta.{Time}
use incident_controller.Api.Incident.{Incident, IncidentSpec, State}
use incident_controller.Api.IncidentApply.{IncidentApply}
use incident_controller.Api.Pod.{Pod}
use incident_controller.Platform.{Platform}
use incident_controller.Server.{Server, found, update_status}
use incident_controller.Machine.Output.{Config}
use incident_controller.CheckPod.Sandbox.{CheckPods}
use incident_controller.Incident.LastRuns.{LastRuns}
use incident_controller.Incident.Observe.{observe_live, Reconcile}
use incident_controller.Incident.Update.{update}
use incident_controller.Apply.Access.{Libraries, ApiServer}
use incident_controller.Apply.Plan.{ApplyConfig, Observed}
use incident_controller.Apply.Observe.{Answers, observe_apply}
use incident_controller.Apply.Carry.{update_apply}

-- The Incident as it is stored; and, of all the reconciles that have written it, the specs that they
-- read, the check pods that they were shown, and the apply pods whose runs they recorded.
pub record World : Type 0 where
  pub inc : Incident
  pub specs : List IncidentSpec
  pub checks : List Pod
  pub applies : List Pod

-- What the writer of the analysis does: it sets Analyzing first and when an analysis is asked for
-- again, and Open when the analysis is finished.
infix 40 ◌⇒◌
pub data ◌⇒◌ : State → State → Type 0 where
  begins : State.unset ⇒ State.analyzing
  ends : State.analyzing ⇒ State.open_state
  again_open : State.open_state ⇒ State.analyzing
  again_verifying : State.verifying ⇒ State.analyzing

-- Nothing of what was known is forgotten.
abbrev pub Remembers : World → World → Type 0
Remembers w v = (v.specs ≡ w.specs) × (v.checks ≡ w.checks) × (v.applies ≡ w.applies)

module _ ⦃p : Platform⦄ ⦃lib : Libraries⦄ (cfg : Config) (pods : CheckPods) (api : ApiServer)
    (apply_cfg : ApplyConfig) where
  abbrev pub checked : Time → LastRuns → List Pod → World → Reconcile
  checked now runs listed w = observe_live cfg now w.inc runs listed

  abbrev pub applied : Time → Answers → IncidentApply → Observed
  applied now answers ia = (observe_apply api apply_cfg answers now ia).0

  -- A status is written by a controller that read the Incident as it is: the apiserver refuses the
  -- update of another version. All else that the controllers read, the answers of the server, and
  -- what people put into the spec, is arbitrary. The writer moves the state, and then leaves no
  -- settle window (docs/api.md), or keeps the state and the controllers' fields; the rest of the
  -- status is then arbitrary too.
  pub data Step (w v : World) : Type 0 where
    check_written :
        (now : Time) (runs : LastRuns) (listed : List Pod) (srv : Server) (new : Incident)
        → In
            (update_status new)
            (update ⦃srv = srv⦄ pods
              (checked now runs listed w).plan
              (checked now runs listed w).inc
              []).1
        → v.inc.status ≡ new.status
        → v.specs ≡ w.inc.spec ∷ w.specs
        → v.checks ≡ listed ++ w.checks
        → v.applies ≡ w.applies
        → Step w v
    apply_written :
        (now : Time) (answers : Answers) (ia : IncidentApply) (pod : Pod) (srv : Server)
        (new : Incident)
        → srv.get_incident []
            (applied now answers ia).ia.meta.namespace
            (applied now answers ia).ia.spec.incident_ref.name
          ≡ found w.inc
        → In
            (update_status new)
            (update_apply ⦃srv = srv⦄
              (applied now answers ia).plan
              (applied now answers ia).ia
              []).1
        → answers.pod ≡ found pod
        → v.inc.status ≡ new.status
        → v.specs ≡ w.specs
        → v.checks ≡ w.checks
        → v.applies ≡ pod ∷ w.applies
        → Step w v
    spec_edited : v.inc.status ≡ w.inc.status → Remembers w v → Step w v
    analysis_written :
        w.inc.status.state ⇒ v.inc.status.state
        → v.inc.status.verifying_since ≡ none
        → v.inc.status.resolution ≡ none
        → Remembers w v
        → Step w v
    analysis_kept :
        v.inc.status.state ≡ w.inc.status.state
        → v.inc.status.verifying_since ≡ w.inc.status.verifying_since
        → v.inc.status.resolution ≡ w.inc.status.resolution
        → Remembers w v
        → Step w v

  pub data Reach (w : World) : World → Type 0 where
    unchanged : Reach w w
    next : {v u : World} → Reach w v → Step v u → Reach w u
