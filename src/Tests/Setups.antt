-- ===== src/Tests/Setups.antt =====
-- The theorems about the controllers that are set up, at inputs.
use incident_controller.Prelude.{
  ◌⊎◌, ◌≤◌, suc, ◌<◌, ◌≢◌, [], ◌+◌, ◌≡◌, refl, arith, Text, none, some, bytes, true,
}
use incident_controller.Api.Managed.{managed_incident, managed_apply}
use incident_controller.Api.IncidentApply.{IncidentApply, ApplyPhase, terminal}
use incident_controller.Api.Incident.{Script}
use incident_controller.Incident.Setup.{
  setup-on_time, Registration, External, setup, registered, connect, hook,
}
use incident_controller.Apply.Connect.{ApplySetup}
use incident_controller.Apply.Setup.{api_server_of, RestConfig, File, unreadable}
use incident_controller.Tests.Library.{platform}
use incident_controller.Tests.Objects.{evaluation, at_second, verifying}
use incident_controller.Tests.Applies.{reads_of}
use incident_controller.Tests.Requests.{request, libraries}
use incident_controller.Tests.Programs.{incident_setup, apply_setup}
use incident_controller.Api.Meta.{second, minute}
use incident_controller.Incident.LastRuns.{LastRuns}
use incident_controller.Program.Run.{apply_options, incident_options}
use incident_controller.Machine.Checks.{current_script}
use incident_controller.Machine.Cadence.{check_due, next_check_at}
use incident_controller.Apply.Access.{ApiServer}
use incident_controller.Apply.Connect.{connect_apply, setup_apply, ApplyRegistration, ApplyExternal}
use incident_controller.Apply.Observe.{observe_apply}
use incident_controller.Program.Options.{controller_options, run_options}
use incident_controller.Apply.Expiry.{setup_apply-expires, visit}

abbrev external : External
external = record { cfg = incident_setup.checks; pods = incident_setup.pods }

abbrev registration : Registration
registration = record {
  connecter = record { cfg = incident_setup.checks; pods = incident_setup.pods };
  poll_interval = minute;
  timeout = minute;
  controller = incident_setup.controller;
}

abbrev seen_at_100 : LastRuns
seen_at_100 uid = at_second 100

set_up : setup none (λ r. none) incident_setup ≡ registered registration
unfolding setup incident_options run_options controller_options
set_up = refl

connects : connect registration.connecter (managed_incident verifying) ≡ some external
unfolding connect
connects = refl

runs_script : current_script verifying ≢ Script.unset
unfolding evaluation
runs_script e = cc

poll_is_minute : external.cfg.poll_interval ≡ minute
unfolding incident_options run_options controller_options
poll_is_minute = refl

next_at_160 : next_check_at verifying (at_second 100) external.cfg.poll_interval ≡ at_second 160
unfolding next_check_at
next_at_160 = rw poll_is_minute refl

setup-on_time_example :
    let back =
      at_second 130 + hook seen_at_100 (managed_incident verifying) (at_second 130) minute in
    (check_due verifying external.cfg (at_second 100) back ≡ true)
    × (back < next_check_at verifying (at_second 100) external.cfg.poll_interval + second)
setup-on_time_example =
    setup-on_time none (λ r. none) incident_setup registration external seen_at_100 verifying
      (at_second 130) set_up connects runs_script (rw next_at_160 (omega arith))
      (rw next_at_160 (omega arith)) (omega arith)

abbrev rest_config : RestConfig
rest_config = record { host = bytes "https://10.0.0.1"; ca_data = bytes "ca"; ca_file = [] }

abbrev no_files : Text → File
no_files name = unreadable (bytes "no such file")

abbrev api : ApiServer
api = record { host = bytes "https://10.0.0.1"; ca = bytes "ca" }

abbrev apply_external : ApplyExternal
apply_external = record { cfg = apply_setup.applies; pods = apply_setup.pods; api = api }

abbrev apply_registered : ApplyRegistration
apply_registered = record {
  connecter = record { cfg = apply_setup.applies; pods = apply_setup.pods; api = api };
  poll_interval = apply_setup.controller.poll_interval;
  hook_ttl = apply_setup.applies.ttl;
  timeout = apply_setup.controller.timeout;
  controller = apply_setup.controller;
}

abbrev failed : IncidentApply
failed = request (bytes "a") ApplyPhase.failed (some (at_second 100))

apply_set_up :
    setup_apply none rest_config no_files none (λ r. none) apply_setup
    ≡ ApplySetup.registered apply_registered
unfolding setup_apply api_server_of bytes
apply_set_up = refl

apply_connects :
    connect_apply apply_registered.connecter (managed_apply failed) ≡ some apply_external
unfolding connect_apply
apply_connects = refl

ttl_is_minute : apply_external.cfg.ttl ≡ minute
unfolding apply_options run_options
ttl_is_minute = refl

failed_terminal : terminal failed.status.phase ≡ true
unfolding terminal
failed_terminal = refl

setup_apply-expires_example :
    ((observe_apply apply_external.api apply_external.cfg
        (reads_of none)
        (visit apply_registered failed (at_second 110) 1)
        failed).0.plan.expired
      ≡ true)
    × ((at_second 100 + apply_external.cfg.ttl ≤ visit apply_registered failed (at_second 110) 0)
        ⊎ (visit apply_registered failed (at_second 110) (suc 0)
            < at_second 100 + apply_external.cfg.ttl + second))
setup_apply-expires_example =
    setup_apply-expires none none rest_config no_files (λ r. none) apply_setup apply_registered
      apply_external (reads_of none) failed (at_second 110) (at_second 100) 1 0 apply_set_up
      apply_connects failed_terminal refl refl refl (rw ttl_is_minute (omega arith))
