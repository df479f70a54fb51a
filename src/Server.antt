-- ===== src/Server.antt =====
-- The apiserver as the controllers reach it through controller-runtime's client: each call is
-- answered by the server, which may know every call before it, and is added to a history, newest
-- first. Nothing is assumed of the answers.
use incident_controller.Prelude.{refl, inr, inl, ◌⊎◌, ◌≡◌, Text, Option, none, some, List, ◌∷◌}
use incident_controller.Api.Meta.{TextMap}
use incident_controller.Api.Incident.{Incident}
use incident_controller.Api.IncidentApply.{IncidentApply}
use incident_controller.Api.Pod.{Pod, ConfigMap, Secret}

pub data Fault : Type 0 where
  not_found already_exists no_match : Fault
  other : Text → Fault

pub data Fetched (A : Type 0) : Type 0 where
  found : A → Fetched A
  fault : Fault → Fetched A

pub Fetched-cases :
    {A : Type 0} (m : Fetched A) → ((a : A) × (m ≡ found a)) ⊎ ((f : Fault) × (m ≡ fault f))
Fetched-cases (found a) = inl (a, refl)
Fetched-cases (fault f) = inr (f, refl)

-- A call that changes something, or an event that is emitted. A status patch names the request as it
-- was read and as it is.
pub data Call : Type 0 where
  update_status : Incident → Call
  update_incident : Incident → Call
  delete_pod : Pod → Call
  delete_config_map : ConfigMap → Call
  create_pod : Pod → Call
  create_config_map : ConfigMap → Call
  create_secret : Secret → Call
  patch_apply : IncidentApply → IncidentApply → Call
  delete_apply : IncidentApply → Call
  emit warn : Text → Text → Call

-- The errors that the controllers return, with what they wrap.
pub data Error : Type 0 where
  pods_not_listed config_maps_not_listed status_not_persisted applied_not_reset : Fault → Error
  pod_not_deleted config_map_not_deleted : Text → Fault → Error
  pod_not_created pod_not_read config_map_not_created : Fault → Error
  apply_pod_not_created apply_pod_not_read apply_secret_not_created : Fault → Error
  apply_config_map_not_created incident_not_fetched apply_status_not_persisted : Fault → Error
  apply_run_not_recorded apply_pod_not_deleted : Text → Fault → Error
  apply_not_deleted : Fault → Error

pub data Outcome {ℓ} (A : Type ℓ) : Type ℓ where
  ok : A → Outcome A
  err : Error → Outcome A

-- What a write of an object answers, and what the client then holds: the server's copy of it.
pub record Server : Type 0 where
  pub list_pods : List Call → Text → TextMap → Fetched (List Pod)
  pub list_config_maps : List Call → Text → TextMap → Fetched (List ConfigMap)
  pub get_pod : List Call → Text → Text → Fetched Pod
  pub get_incident : List Call → Text → Text → Fetched Incident
  pub write_status : List Call → Incident → Fetched Incident
  pub write_incident : List Call → Incident → Fetched Incident
  pub write_apply : List Call → IncidentApply → IncidentApply → Fetched IncidentApply
  pub write_pod : List Call → Pod → Fetched Pod
  pub write : List Call → Call → Option Fault

-- A step: what it returns, and the history after it.
abbrev pub Io : Type 0 → Type 0
Io A = List Call → Outcome A × List Call

abbrev pub pure : {A : Type 0} → A → Io A
pure a h = (ok a, h)

abbrev pub continue_with :
    {A B : Type 0} → Outcome A × List Call → (A → Io B) → Outcome B × List Call
continue_with (ok a, h) k = k a h
continue_with (err e, h) k = (err e, h)

infixl 5 ◌>>=◌ ◌>>◌
abbrev pub ◌>>=◌ : {A B : Type 0} → Io A → (A → Io B) → Io B
◌>>=◌ m k h = continue_with (m h) k

abbrev pub ◌>>◌ : {B : Type 0} → Io (Unit {0}) → Io B → Io B
m >> k = m >>= λ _. k

abbrev pub lift : {A : Type 0} → Fetched A → (Fault → Error) → Outcome A
lift (found a) wrap = ok a
lift (fault f) wrap = err (wrap f)

abbrev pub answered : Option Fault → (Fault → Option Error) → Outcome (Unit {0})
answered none wrap = ok tt
answered (some f) wrap = elim (wrap f) [ none ↦ ok tt | some e ↦ err e ]

abbrev pub ignore_not_found : (Fault → Error) → Fault → Option Error
ignore_not_found wrap not_found = none
ignore_not_found wrap already_exists = some (wrap already_exists)
ignore_not_found wrap no_match = some (wrap no_match)
ignore_not_found wrap (other t) = some (wrap (other t))

abbrev pub ignore_already_exists : (Fault → Error) → Fault → Option Error
ignore_already_exists wrap already_exists = none
ignore_already_exists wrap not_found = some (wrap not_found)
ignore_already_exists wrap no_match = some (wrap no_match)
ignore_already_exists wrap (other t) = some (wrap (other t))

module _ ⦃srv : Server⦄ where
  abbrev pub issue : Call → (Fault → Option Error) → Io (Unit {0})
  issue c wrap h = (answered (srv.write h c) wrap, c ∷ h)

abbrev pub announce : Text → Text → Io (Unit {0})
announce reason message h = (ok tt, emit reason message ∷ h)

abbrev pub alert : Text → Text → Io (Unit {0})
alert reason message h = (ok tt, warn reason message ∷ h)

module _ ⦃srv : Server⦄ where
  -- A create that finds the pod there reads it.
  abbrev or_read : (Fault → Error) → (Fault → Error) → Fetched Pod → Pod → Io Pod
  or_read created read (found pod) asked h = (ok pod, h)
  or_read created read (fault already_exists) asked h =
      (lift (srv.get_pod h asked.meta.namespace asked.meta.name) read, h)
  or_read created read (fault f) asked h = (err (created f), h)

  abbrev pub write_or_read : (Fault → Error) → (Fault → Error) → Pod → Io Pod
  write_or_read created read pod h =
      or_read created read (srv.write_pod h pod) pod (create_pod pod ∷ h)
