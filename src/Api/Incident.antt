-- ===== src/Api/Incident.antt =====
-- apis/incident/v1alpha1/types.go: the Incident resource.
use incident_controller.Prelude.{Text, ℤ, Bool, true, false, Option, List, text_eq}
use incident_controller.Api.Meta.{Time, ObjectMeta, Condition}

-- The CRD admits no other text; `unset` is the empty one, before the first status write.
pub data State : Type 0 where
  unset analyzing open_state verifying resolved closed : State

pub State-discrete : Discrete State
State-discrete = hlevel

-- `unset` is the empty text, `other` a text that names no script, which a label may hold.
pub data Script : Type 0 where
  precondition apply verify unset : Script
  other : Text → Script

abbrev pub script_eq : Script → Script → Bool
script_eq precondition precondition = true
script_eq apply apply = true
script_eq verify verify = true
script_eq unset unset = true
script_eq (other s) (other t) = text_eq s t
script_eq _ _ = false

pub data Trigger : Type 0 where
  alert composition_condition user_ask : Trigger

pub data ResolvedBy : Type 0 where
  verify user : ResolvedBy

pub data SourceType : Type 0 where
  logs events metrics object : SourceType

pub record AlertRef : Type 0 where
  pub name : Text
  pub namespace : Text

pub record ReanalysisRequest : Type 0 where
  pub feedback : Text

pub record IncidentSpec : Type 0 where
  pub alert_ref : AlertRef
  pub trigger : Option Trigger
  pub prompt : Text
  pub triggered_at : Option Time
  pub applied : Bool
  pub closed : Bool
  pub reanalysis : Option ReanalysisRequest

pub record Reanalysis : Type 0 where
  pub at : Time
  pub feedback : Text
  pub count : ℤ

pub record ApplyAction : Type 0 where
  pub verb : Text
  pub api_version : Text
  pub resource : Text
  pub namespace : Text
  pub name : Text
  pub payload : Option Text

pub record HowToFix : Type 0 where
  pub precondition : Text
  pub apply : Text
  pub verify : Text
  pub rollback : Text
  pub apply_action : Option ApplyAction

pub record LastCheck : Type 0 where
  pub exit : Option ℤ
  pub since : Time
  pub output : Text

pub record LastChecks : Type 0 where
  pub precondition : Option LastCheck
  pub apply : Option LastCheck
  pub verify : Option LastCheck

pub record Resolution : Type 0 where
  pub by : ResolvedBy
  pub at : Time

pub record RootCause : Type 0 where
  pub statement : Text
  pub confidence : Text
  pub category : Text

pub record Source : Type 0 where
  pub kind : Option SourceType
  pub ref : Text
  pub excerpt : Text

pub record ReasoningStep : Type 0 where
  pub step : ℤ
  pub statement : Text
  pub evidence_refs : List ℤ

pub record AnalyzedResource : Type 0 where
  pub gvr : Text
  pub name : Text
  pub namespace : Text
  pub what_was_read : Text

-- The status fields that the writer fills and this controller only carries along.
pub record Analysis : Type 0 where
  pub report : Text
  pub root_cause : Option RootCause
  pub sources : List Source
  pub reasoning_trace : List ReasoningStep
  pub analyzed_resources : List AnalyzedResource
  pub missing_context : List Text
  pub assumptions : List Text
  pub error : Text
  pub completed_at : Option Time
  pub reanalysis : Option Reanalysis

pub record IncidentStatus : Type 0 where
  pub conditions : List Condition
  pub state : State
  pub how_to_fix : Option HowToFix
  pub last_checks : Option LastChecks
  pub verifying_since : Option Time
  pub resolution : Option Resolution
  pub analysis : Analysis

pub record Incident : Type 0 where
  pub meta : ObjectMeta
  pub spec : IncidentSpec
  pub status : IncidentStatus
