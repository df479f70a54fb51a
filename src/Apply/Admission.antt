-- ===== src/Apply/Admission.antt =====
-- apply.go: admit, which decides whether a new request runs.
use incident_controller.Prelude.{
  ◌++◌, not, Text, Bool, true, false, Option, none, some, List, [], ◌∷◌, bytes, is_empty, ltb,
  if◌then◌else◌,
}
use incident_controller.Api.Meta.{Time, Duration}
use incident_controller.Api.Incident.{Incident, State, HowToFix}
use incident_controller.Api.IncidentApply.{IncidentApply, Requester, requester_policy}
use incident_controller.Api.Pod.{Secret}
use incident_controller.Server.{Fetched, found, fault, not_found, already_exists, no_match, other}
use incident_controller.Machine.Transitions.{state_text}
use incident_controller.Apply.Requests.{busy_in}
use incident_controller.Apply.Access.{
  ◌>>=◌, Check, passes, rejects, retries, or_rejects, policy_not_read, incident_not_read,
  applies_not_listed, access_not_reviewed, Libraries, ApiServer, kubeconfig_of,
}

-- What an admitted run needs.
pub record ApplyStart : Type 0 where
  pub script : Text
  pub kubeconfig : Text

-- What the apiserver answers to the reads of one admission: the creation time of an object of a
-- kind, the incident, the requests of the namespace, the access review, and a Secret.
pub record Reads : Type 0 where
  pub policy : Text → Fetched Time
  pub incident : Fetched Incident
  pub applies : Fetched (List IncidentApply)
  pub review : Requester → Incident → Fetched Bool
  pub credentials : Text → Fetched Secret

abbrev is_open : State → Bool
is_open State.open_state = true
is_open _ = false

abbrev not_installed : Text → Text
not_installed kind =
    bytes "the "
    ++ (kind
        ++ (bytes " "
            ++ (requester_policy
                ++ bytes
                    " is not installed (it needs Kubernetes 1.36 or later), so nothing vouches for spec.requestedBy")))

abbrev too_late : Text → Text
too_late kind =
    bytes "the "
    ++ (kind
        ++ (bytes " "
            ++ (requester_policy
                ++ bytes
                    " was created after this request, so nothing vouched for its spec.requestedBy")))

-- The round of vouched for one kind, by what the read answers.
abbrev pub vouched_by : Text → Fetched Time → Time → Check (Unit {0})
vouched_by kind (fault not_found) requested = rejects (not_installed kind)
vouched_by kind (fault no_match) requested = rejects (not_installed kind)
vouched_by kind (fault already_exists) requested = retries (policy_not_read kind already_exists)
vouched_by kind (fault (other t)) requested = retries (policy_not_read kind (other t))
vouched_by kind (found created) requested =
    if not (ltb created requested) then rejects (too_late kind) else passes tt

unfoldable pub vouched_in : List Text → (Text → Fetched Time) → Time → Check (Unit {0})
vouched_in [] policy requested = passes tt
vouched_in (kind ∷ kinds) policy requested = do
  here ← vouched_by kind (policy kind) requested
  vouched_in kinds policy requested

unfoldable pub policy_kinds : List Text
unfolding bytes
policy_kinds = bytes "MutatingAdmissionPolicy" ∷ bytes "MutatingAdmissionPolicyBinding" ∷ []

-- `if state == "" { state = StateAnalyzing }`
abbrev shown_state : State → Text
shown_state State.unset = state_text State.analyzing
shown_state s = state_text s

abbrev no_script : Text → Text
no_script name = bytes "incident " ++ (name ++ bytes " has no apply script")

abbrev pub apply_script : Text → Option HowToFix → Check Text
apply_script name none = rejects (no_script name)
apply_script name (some h) = if is_empty h.apply then rejects (no_script name) else passes h.apply

-- The apply script of an incident that is Open.
unfoldable pub open_script : Text → Incident → Check Text
open_script name inc =
    if not (is_open inc.status.state)
    then rejects (
        bytes "incident "
        ++ (name
            ++ (bytes " is "
                ++ (shown_state inc.status.state
                    ++ bytes "; only an Open incident's apply script runs"))))
    else apply_script name inc.status.how_to_fix

abbrev pub free_of : Text → Check (Unit {0})
free_of other_name =
    if is_empty other_name
    then passes tt
    else rejects (
        bytes "IncidentApply "
        ++ (other_name ++ bytes " for this incident is already pending or running"))

abbrev pub listed : Fetched (List IncidentApply) → Check (List IncidentApply)
listed (found l) = passes l
listed (fault f) = retries (applies_not_listed f)

abbrev pub reviewed : Fetched Bool → Check Bool
reviewed (found allowed) = passes allowed
reviewed (fault f) = retries (access_not_reviewed f)

abbrev pub allowed_as : Text → Text → Bool → Check (Unit {0})
allowed_as username name true = passes tt
allowed_as username name false = rejects (
    username
    ++ (bytes " may not patch incident "
        ++ (name
            ++ bytes "; running its apply script takes the same rights as marking it applied")))

module _ ⦃lib : Libraries⦄ where
  unfoldable pub admit_user : ApiServer → Duration → Reads → IncidentApply → Time → Check ApplyStart
  unfolding vouched_in open_script busy_in kubeconfig_of
  admit_user api timeout reads ia now = do
    vouched ← vouched_in policy_kinds reads.policy ia.meta.creation_timestamp
    inc ←
        or_rejects reads.incident
          (bytes "incident " ++ (ia.spec.incident_ref.name ++ bytes " does not exist"))
          incident_not_read
    script ← open_script ia.spec.incident_ref.name inc
    l ← listed reads.applies
    free ← free_of (busy_in ia l)
    allowed ← reviewed (reads.review ia.spec.requested_by inc)
    may ← allowed_as ia.spec.requested_by.username ia.spec.incident_ref.name allowed
    kubeconfig ← kubeconfig_of api timeout reads.credentials ia.spec.requested_by.username now
    passes (record { script = script; kubeconfig = kubeconfig })

  unfoldable pub admit : ApiServer → Duration → Reads → IncidentApply → Time → Check ApplyStart
  unfolding admit_user
  admit api timeout reads ia now =
      if is_empty ia.spec.requested_by.username
      then rejects (bytes "no requester is recorded")
      else admit_user api timeout reads ia now
