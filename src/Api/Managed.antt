-- ===== src/Api/Managed.antt =====
-- What the reconciler hands to a controller: a managed resource, of any of the types.
use incident_controller.Api.Incident.{Incident}
use incident_controller.Api.IncidentApply.{IncidentApply}
use incident_controller.Api.Meta.{ObjectMeta}

-- `resource.Managed`, by its dynamic type.
pub data Managed : Type 0 where
  managed_incident : Incident → Managed
  managed_apply : IncidentApply → Managed
  managed_other : ObjectMeta → Managed
