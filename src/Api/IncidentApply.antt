-- ===== src/Api/IncidentApply.antt =====
-- apis/incident/v1alpha1/incidentapply_types.go: the IncidentApply resource.
use incident_controller.Prelude.{ℕ, ℤ, Text, Bool, true, false, Option, List, bytes}
use incident_controller.Api.Meta.{Time, ObjectMeta, Condition}

unfoldable pub requester_policy : Text
unfolding bytes
requester_policy = bytes "incidentapply-requested-by"

abbrev pub max_apply_output : ℕ
max_apply_output = 4096

unfoldable pub reason_apply_finished : Text
unfolding bytes
reason_apply_finished = bytes "ApplyFinished"

-- The CRD admits no other text; `unset` is the empty one: the controller has not acted yet.
pub data ApplyPhase : Type 0 where
  unset running succeeded failed rejected : ApplyPhase

unfoldable pub terminal : ApplyPhase → Bool
terminal ApplyPhase.succeeded = true
terminal ApplyPhase.failed = true
terminal ApplyPhase.rejected = true
terminal _ = false

pub record IncidentRef : Type 0 where
  pub name : Text

pub record Requester : Type 0 where
  pub username : Text
  pub groups : List Text

pub record IncidentApplySpec : Type 0 where
  pub incident_ref : IncidentRef
  pub requested_by : Requester

pub record IncidentApplyStatus : Type 0 where
  pub conditions : List Condition
  pub phase : ApplyPhase
  pub message : Text
  pub script : Text
  pub exit_code : Option ℤ
  pub output : Text
  pub started_at : Option Time
  pub finished_at : Option Time

pub record IncidentApply : Type 0 where
  pub meta : ObjectMeta
  pub spec : IncidentApplySpec
  pub status : IncidentApplyStatus
