-- ===== src/Apply/Connect.antt =====
-- apply.go: SetupApply and Connect, and the requeue hook as the reconciler calls it.
use incident_controller.Prelude.{Text, Option, none, some, ◌≡◌, arith}
use incident_controller.Api.Meta.{Time, Duration}
use incident_controller.Api.Managed.{Managed, managed_incident, managed_apply, managed_other}
use incident_controller.CheckPod.Sandbox.{CheckPods}
use incident_controller.Apply.Access.{ApiServer}
use incident_controller.Apply.Plan.{ApplyConfig}
use incident_controller.Apply.Wait.{apply_poll_interval_hook}
use incident_controller.Apply.Setup.{api_server_of, RestConfig, File, Target, target}
use incident_controller.Program.Options.{ControllerOptions, ApplyOptions}
use incident_controller.Api.IncidentApply.{IncidentApply}

-- `applyConnector`, but for the clients, the reader of logs, the logger and the recorder.
pub record ApplyConnector : Type 0 where
  pub cfg : ApplyConfig
  pub pods : CheckPods
  pub api : ApiServer

-- `applyExternal`, in the same way; its plan starts empty.
pub record ApplyExternal : Type 0 where
  pub cfg : ApplyConfig
  pub pods : CheckPods
  pub api : ApiServer

-- What SetupApply registers with the manager. The hook is made for `hook_ttl`.
pub record ApplyRegistration : Type 0 where
  pub connecter : ApplyConnector
  pub poll_interval : Duration
  pub hook_ttl : Duration
  pub timeout : Duration
  pub controller : ControllerOptions

pub data ApplySetup : Type 0 where
  registered : ApplyRegistration → ApplySetup
  recorder_not_created clientset_not_created not_completed : Text → ApplySetup
  no_api_server : Target → ApplySetup

abbrev apply_registration : ApplyOptions → ApiServer → ApplyRegistration
apply_registration o api = record {
  connecter = record { cfg = o.applies; pods = o.pods; api = api };
  poll_interval = o.controller.poll_interval;
  hook_ttl = o.applies.ttl;
  timeout = o.controller.timeout;
  controller = o.controller;
}

abbrev completed : ApplyRegistration → Option Text → ApplySetup
completed r none = registered r
completed r (some e) = not_completed e

abbrev with_clientset :
    Option Text → (ApplyRegistration → Option Text) → ApplyRegistration → ApplySetup
with_clientset (some e) complete r = clientset_not_created e
with_clientset none complete r = completed r (complete r)

abbrev with_api_server :
    Target → Option Text → (ApplyRegistration → Option Text) → ApplyOptions → ApplySetup
with_api_server (target api) clientset complete o =
    with_clientset clientset complete (apply_registration o api)
with_api_server t clientset complete o = no_api_server t

-- The event recorder, the clientset and the builder of the manager answer with an error or none.
unfoldable pub setup_apply :
    Option Text
    → RestConfig
    → (Text → File)
    → Option Text
    → (ApplyRegistration → Option Text)
    → ApplyOptions
    → ApplySetup
unfolding api_server_of
setup_apply (some e) rc files clientset complete o = recorder_not_created e
setup_apply none rc files clientset complete o =
    with_api_server (api_server_of rc files) clientset complete o

-- An error is that the resource is not an IncidentApply.
unfoldable pub connect_apply : ApplyConnector → Managed → Option ApplyExternal
connect_apply c (managed_incident inc) = none
connect_apply c (managed_apply ia) = some (record { cfg = c.cfg; pods = c.pods; api = c.api })
connect_apply c (managed_other m) = none

unfoldable pub apply_hook : Duration → Managed → Time → Duration → Duration
unfolding apply_poll_interval_hook
apply_hook ttl (managed_incident inc) now poll = poll
apply_hook ttl (managed_apply ia) now poll = apply_poll_interval_hook ttl ia now poll
apply_hook ttl (managed_other m) now poll = poll

pub setup_apply-ttl :
    (recorder clientset : Option Text) (rc : RestConfig) (files : Text → File)
    (complete : ApplyRegistration → Option Text) (o : ApplyOptions) (r : ApplyRegistration)
    (e : ApplyExternal) (ia : IncidentApply)
    → setup_apply recorder rc files clientset complete o ≡ registered r
    → connect_apply r.connecter (managed_apply ia) ≡ some e
    → e.cfg.ttl ≡ r.hook_ttl
unfolding setup_apply connect_apply
setup_apply-ttl recorder clientset rc files complete o r e ia s c = ground arith
