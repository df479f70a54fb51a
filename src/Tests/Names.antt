-- ===== src/Tests/Names.antt =====
-- The theorems about the pods and their names, at inputs.
use incident_controller.Prelude.{◌≡◌, ◌/◌, ◌+◌, refl, arith, Text, [], ◌∷◌, bytes, inr}
use incident_controller.Api.Meta.{second, value_at}
use incident_controller.Api.Incident.{Script}
use incident_controller.CheckPod.Names.{
  unix_text, seq_text, decimal, check_name, label_script, selector, incident_of_pod, apply_of_pod,
}
use incident_controller.CheckPod.ResultOf.{script_of}
use incident_controller.CheckPod.Sandbox.{check_pod}
use incident_controller.CheckPod.ReadBack.{Matches, check_pod-read_back}
use incident_controller.CheckPod.Unique.{check_name-injective, IsUuid}
use incident_controller.Tests.Objects.{check_pods, verifying, at_second}
use incident_controller.Tests.Requests.{pending}
use incident_controller.Api.IncidentApply.{IncidentApply}

decimal_runs : decimal 1_700_000_000 ≡ bytes "1700000000"
unfolding decimal bytes
decimal_runs = refl

check_pod-read_back_example :
    let m = (check_pod check_pods verifying Script.verify (at_second 5)).meta in
    (incident_of_pod m ≡ (verifying.meta.namespace, verifying.meta.name) ∷ [])
    × (apply_of_pod m ≡ [])
    × Matches m.labels (selector verifying)
    × (script_of (value_at m.labels label_script) ≡ Script.verify)
unfolding bytes
check_pod-read_back_example =
    check_pod-read_back check_pods verifying Script.verify (at_second 5) (λ e. cc) (λ e. cc)
      (inr (inr refl))

same_name :
    check_name verifying Script.verify (at_second 5)
    ≡ check_name verifying Script.verify (at_second 5 + 7)
unfolding check_name seq_text unix_text decimal
same_name = refl

check_name-injective_example :
    (Script.verify ≡ Script.verify) × (at_second 5 / second ≡ (at_second 5 + 7) / second)
check_name-injective_example =
    check_name-injective verifying Script.verify Script.verify (at_second 5) (at_second 5 + 7)
      (inr refl) (inr refl) (λ e. omega arith) (λ e. omega arith) same_name

abbrev identified : Text → IncidentApply
identified name = record pending {
  meta = record (pending.meta) { name = name; uid = bytes "12345678-9abc-def0-1234-56789abcdef0" };
}

identified-IsUuid : (name : Text) → IsUuid (identified name).meta.uid
unfolding bytes
identified-IsUuid name = record {
  a = bytes "12345678";
  b = bytes "9abc";
  c = bytes "def0";
  d = bytes "1234";
  e = bytes "56789abcdef0";
  groups = refl;
  dashless = ground arith;
  lengths = ground arith;
}
