-- ===== src/Tests/Requests.antt =====
-- The theorems about the IncidentApply controller, at inputs.
use incident_controller.Prelude.{
  ◌≡◌, ◌≢◌, Text, true, Option, none, some, [], ◌∷◌, refl, bytes, inl, inr, text_eq, trim_space,
}
use incident_controller.Api.Meta.{value_at, Time, minute}
use incident_controller.Api.Incident.{State}
use incident_controller.Api.IncidentApply.{IncidentApply, ApplyPhase, terminal}
use incident_controller.Server.{found}
use incident_controller.Apply.Tail.{copy}
use incident_controller.Apply.Latest.{last_bytes, joined, copy-last_bytes}
use incident_controller.Apply.Requests.{busy_in, skipped}
use incident_controller.Apply.Exclusion.{IsPending, HasName, busy_in-exclusive}
use incident_controller.Apply.Access.{
  key_client_cert, key_client_key, Libraries, ApiServer, parsed, written, has_prefix,
}
use incident_controller.Apply.Admission.{ApplyStart, Reads, admit, vouched_in, policy_kinds}
use incident_controller.Apply.Admitted.{IsGranted, admit-IsGranted}
use incident_controller.Tests.Objects.{meta_of, incident_in, at_second}

copy-last_bytes_example :
    (copy (record { b = []; max = 4 }) (bytes "abc" ∷ bytes "de" ∷ [])).b
    ≡ last_bytes 4 (joined (bytes "abc" ∷ bytes "de" ∷ []))
copy-last_bytes_example = copy-last_bytes 4 (bytes "abc" ∷ bytes "de" ∷ [])

abbrev pub request : Text → ApplyPhase → Option Time → IncidentApply
request name phase finished = record {
  meta = meta_of name (at_second 50);
  spec = record {
    incident_ref = record { name = bytes "incident" };
    requested_by = record { username = bytes "alice"; groups = [] };
  };
  status = record {
    conditions = [];
    phase = phase;
    message = [];
    script = [];
    exit_code = none;
    output = [];
    started_at = none;
    finished_at = finished;
  };
}

abbrev pub pending : IncidentApply
pending = request (bytes "a") ApplyPhase.unset none

pending-IsPending : IsPending pending
unfolding terminal
pending-IsPending = record { unfinished = refl; kept = refl }

-- The same request, as it reads once its admission was tried.
abbrev pending_tried : IncidentApply
pending_tried = record pending { status = record (pending.status) { message = bytes "tried" } }

pending_tried-IsPending : IsPending pending_tried
unfolding terminal
pending_tried-IsPending = record { unfinished = refl; kept = refl }

busy_in-exclusive_example : pending.meta.uid ≡ pending_tried.meta.uid
unfolding busy_in HasName skipped text_eq bytes
busy_in-exclusive_example =
    busy_in-exclusive pending pending_tried (pending ∷ pending_tried ∷ []) (inl refl)
      (inr (inl refl)) (λ e. cc, (λ e. cc, tt)) pending-IsPending pending_tried-IsPending refl
      (λ e. refl) refl refl

instance abbrev pub libraries : Libraries
libraries = record {
  dns_compatible = λ s. s;
  base64_decode = λ s. some s;
  pem_decode = λ s. some s;
  parse_certificate =
      λ s. parsed (record { common_name = bytes "alice"; not_after = at_second 9000 });
  time_text = λ t. [];
  write_config = λ c. written c.server;
}

abbrev pub answers : Reads
answers = record {
  policy = λ kind. found (at_second 10);
  incident = found (incident_in State.open_state none);
  applies = found (pending ∷ []);
  review = λ user inc. found true;
  credentials = λ name.
      found
        (record { meta = meta_of name 0; contents = (bytes "client-key-data", bytes "key") ∷ [] });
}

abbrev pub cluster : ApiServer
cluster = record { host = bytes "https://10.0.0.1"; ca = [] }

abbrev pub admitted : ApplyStart
admitted = record { script = bytes "true"; kubeconfig = bytes "https://10.0.0.1" }

-- What an admission computes with.
unfoldable pub admitting : Unit {0}
unfolding admit bytes text_eq trim_space has_prefix vouched_in policy_kinds busy_in key_client_key
    value_at key_client_cert
admitting = tt

admit-IsGranted_example :
    (bytes "alice" ≢ []) × IsGranted minute answers pending (at_second 60) (bytes "true")
unfolding admitting
admit-IsGranted_example =
    admit-IsGranted cluster minute answers pending (at_second 60) admitted refl
