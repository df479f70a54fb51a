-- ===== src/Apply/Setup.antt =====
-- apply.go: the apiserver that apply pods send kubectl to.
use incident_controller.Prelude.{false, Text, ◌&&◌, not, is_empty, if◌then◌else◌, ◌≡◌, arith}
use incident_controller.Apply.Access.{ApiServer}

-- The fields of client-go's rest.Config that are read.
pub record RestConfig : Type 0 where
  pub host : Text
  pub ca_data : Text
  pub ca_file : Text

-- What os.ReadFile answers.
pub data File : Type 0 where
  contents unreadable : Text → File

pub data Target : Type 0 where
  target : ApiServer → Target
  no_host : Target
  ca_not_read : Text → Target

abbrev with_ca : Text → File → Target
with_ca host (contents ca) = target (record { host = host; ca = ca })
with_ca host (unreadable e) = ca_not_read e

unfoldable pub api_server_of : RestConfig → (Text → File) → Target
api_server_of rc files =
    if is_empty rc.host
    then no_host
    else if is_empty rc.ca_data && not (is_empty rc.ca_file)
    then with_ca rc.host (files rc.ca_file)
    else target (record { host = rc.host; ca = rc.ca_data })

-- An apiserver that is found is the config's, with a name, and with the config's own CA where it
-- holds one.
pub api_server_of-target :
    (rc : RestConfig) (files : Text → File) (api : ApiServer)
    → api_server_of rc files ≡ target api
    → (api.host ≡ rc.host)
      × (is_empty api.host ≡ false)
      × (is_empty rc.ca_data ≡ false → api.ca ≡ rc.ca_data)
unfolding api_server_of
api_server_of-target rc files api e = ground arith
