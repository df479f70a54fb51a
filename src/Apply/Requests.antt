-- ===== src/Apply/Requests.antt =====
-- apply.go: which of several requests for an incident goes first.
use incident_controller.Prelude.{
  Text, Bool, true, false, not, ◌||◌, List, [], ◌∷◌, text_eq, text_ltb, ◌==◌, ltb, if◌then◌else◌,
}
use incident_controller.Api.Meta.{was_deleted}
use incident_controller.Api.IncidentApply.{IncidentApply, ApplyPhase, terminal}

abbrev pub is_running : ApplyPhase → Bool
is_running ApplyPhase.running = true
is_running _ = false

unfoldable pub older : IncidentApply → IncidentApply → Bool
older a b =
    if not (a.meta.creation_timestamp == b.meta.creation_timestamp)
    then ltb a.meta.creation_timestamp b.meta.creation_timestamp
    else text_ltb a.meta.name b.meta.name

-- The requests that busy does not look at.
unfoldable pub skipped : IncidentApply → IncidentApply → Bool
skipped ia o =
    text_eq o.meta.uid ia.meta.uid
    || not (text_eq o.spec.incident_ref.name ia.spec.incident_ref.name)
    || terminal o.status.phase
    || was_deleted o.meta

unfoldable pub goes_first : IncidentApply → IncidentApply → Bool
unfolding older
goes_first ia o = is_running o.status.phase || older o ia

-- The loop of busy over the requests of the namespace: a name, or the empty text.
unfoldable pub busy_in : IncidentApply → List IncidentApply → Text
unfolding skipped goes_first
busy_in ia [] = []
busy_in ia (o ∷ rest) =
    let later = busy_in ia rest in
    if skipped ia o then later else if goes_first ia o then o.meta.name else later
