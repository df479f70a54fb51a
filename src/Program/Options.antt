-- ===== src/Program/Options.antt =====
-- main.go: the flags of the program, and the options that main makes of them.
use incident_controller.Prelude.{[], false, bytes, ◌*◌, ℤ, Text, Bool}
use incident_controller.Api.Meta.{Duration, minute}
use incident_controller.Machine.Output.{Config}
use incident_controller.CheckPod.Sandbox.{CheckPods}
use incident_controller.Apply.Plan.{ApplyConfig}

-- The values of the flags, but for `debug`, which only sets the level of the log.
pub record Flags : Type 0 where
  pub sync_period : Duration
  pub poll : Duration
  pub settle_window : Duration
  pub check_timeout : Duration
  pub checks_namespace : Text
  pub apply_timeout : Duration
  pub apply_ttl : Duration
  pub credentials_namespace : Text
  pub check_pod_template : Text
  pub max_reconcile_rate : ℤ
  pub leader_election : Bool
  pub global_reconcile_rate : ℤ
  pub timeout : Duration
  pub check_reader_role : Text
  pub check_reader_refresh : Duration

-- What the flags are where neither the command line nor the environment sets them.
unfoldable pub default_flags : Flags
unfolding bytes
default_flags = record {
  sync_period = 60 * minute;
  poll = minute;
  settle_window = 5 * minute;
  check_timeout = minute;
  checks_namespace = [];
  apply_timeout = 2 * minute;
  apply_ttl = 30 * (24 * (60 * minute));
  credentials_namespace = [];
  check_pod_template = bytes "/etc/incident-provider/check-pod.yaml";
  max_reconcile_rate = ℤ.pos 5;
  leader_election = false;
  global_reconcile_rate = ℤ.pos 20;
  timeout = minute;
  check_reader_role = [];
  check_reader_refresh = 5 * minute;
}

-- The global rate limiter is the rate that it is made of.
pub record ControllerOptions : Type 0 where
  pub max_concurrent_reconciles : ℤ
  pub poll_interval : Duration
  pub global_rate : ℤ
  pub timeout : Duration

-- Options of the Incident controller, before and after `run` gives them the pods.
pub record CheckOptions : Type 0 where
  pub controller : ControllerOptions
  pub settle_window : Duration
  pub check_timeout : Duration

pub record IncidentOptions : Type 0 where
  pub controller : ControllerOptions
  pub checks : Config
  pub pods : CheckPods

pub record ApplyRunOptions : Type 0 where
  pub controller : ControllerOptions
  pub applies : ApplyConfig

pub record ApplyOptions : Type 0 where
  pub controller : ControllerOptions
  pub pods : CheckPods
  pub applies : ApplyConfig

pub record CheckReaderOptions : Type 0 where
  pub role : Text
  pub interval : Duration

pub record RunOptions : Type 0 where
  pub sync_period : Duration
  pub leader_election : Bool
  pub checks_namespace : Text
  pub pod_template : Text
  pub check_reader : CheckReaderOptions
  pub incident : CheckOptions
  pub apply : ApplyRunOptions

unfoldable pub controller_options : Flags → ControllerOptions
controller_options f = record {
  max_concurrent_reconciles = f.max_reconcile_rate;
  poll_interval = f.poll;
  global_rate = f.global_reconcile_rate;
  timeout = f.timeout;
}

-- What main hands to `run`.
unfoldable pub run_options : Flags → RunOptions
unfolding controller_options
run_options f = record {
  sync_period = f.sync_period;
  leader_election = f.leader_election;
  checks_namespace = f.checks_namespace;
  pod_template = f.check_pod_template;
  check_reader = record { role = f.check_reader_role; interval = f.check_reader_refresh };
  incident = record {
    controller = controller_options f;
    settle_window = f.settle_window;
    check_timeout = f.check_timeout;
  };
  apply = record {
    controller = controller_options f;
    applies = record {
      timeout = f.apply_timeout;
      ttl = f.apply_ttl;
      credentials_namespace = f.credentials_namespace;
    };
  };
}
