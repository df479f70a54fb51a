-- ===== src/Apply/Granted.antt =====
-- apply.go: what holds of a request that passes a step of the admission.
use incident_controller.Prelude.{
  ◌<◌, ◌≡◌, ◌≢◌, Text, Bool, true, false, Option, none, some, List, [], ◌∷◌, refl, arith, All,
}
use incident_controller.Api.Meta.{Time}
use incident_controller.Api.Incident.{Incident, State, HowToFix}
use incident_controller.Api.IncidentApply.{IncidentApply}
use incident_controller.Server.{
  Fault, Fetched, found, fault, not_found, already_exists, no_match, other,
}
use incident_controller.Apply.Access.{
  ◌>>=◌, Check, passes, rejects, retries, or_rejects, AdmitError,
}
use incident_controller.Apply.Admission.{
  vouched_by, apply_script, free_of, listed, reviewed, allowed_as, vouched_in, open_script,
}

pub bind-passes :
    {A B : Type 0} (m : Check A) (k : A → Check B) (b : B)
    → (m >>= k) ≡ passes b
    → (a : A) × (m ≡ passes a) × (k a ≡ passes b)
bind-passes (passes a) k b e = (a, refl, e)
bind-passes (rejects why) k b e = cc
bind-passes (retries f) k b e = cc

pub or_rejects-passes :
    {A : Type 0} (m : Fetched A) (why : Text) (wrap : Fault → AdmitError) (a : A)
    → or_rejects m why wrap ≡ passes a
    → m ≡ found a
or_rejects-passes (found a) why wrap b e = cc
or_rejects-passes (fault not_found) why wrap a e = cc
or_rejects-passes (fault already_exists) why wrap a e = cc
or_rejects-passes (fault no_match) why wrap a e = cc
or_rejects-passes (fault (other t)) why wrap a e = cc

-- The object of a kind was there before the request.
unfoldable pub IsVouched : (Text → Fetched Time) → Time → Text → Type 0
IsVouched policy requested kind =
    (created : Time) × (policy kind ≡ found created) × (created < requested)

vouched_by-passes :
    (kind : Text) (read : Fetched Time) (requested : Time) (u : Unit {0})
    → vouched_by kind read requested ≡ passes u
    → (created : Time) × (read ≡ found created) × (created < requested)
vouched_by-passes kind (found created) requested u e = (created, refl, ground arith)
vouched_by-passes kind (fault not_found) requested u e = cc
vouched_by-passes kind (fault already_exists) requested u e = cc
vouched_by-passes kind (fault no_match) requested u e = cc
vouched_by-passes kind (fault (other t)) requested u e = cc

pub vouched_in-passes :
    (kinds : List Text) (policy : Text → Fetched Time) (requested : Time) (u : Unit {0})
    → vouched_in kinds policy requested ≡ passes u
    → All (IsVouched policy requested) kinds
unfolding vouched_in IsVouched
vouched_in-passes [] policy requested u e = tt
vouched_in-passes (kind ∷ kinds) policy requested u e =
    let (v, here, rest) = bind-passes (vouched_by kind (policy kind) requested) _ u e in
    (
      vouched_by-passes kind (policy kind) requested v here,
      vouched_in-passes kinds policy requested u rest,
    )

-- The script is the apply script of the incident, which is Open.
unfoldable pub IsOpenWith : Incident → Text → Type 0
IsOpenWith inc script =
    (inc.status.state ≡ State.open_state)
    × ((h : HowToFix) × (inc.status.how_to_fix ≡ some h) × (h.apply ≡ script))
    × (script ≢ [])

apply_script-passes :
    (name : Text) (fix : Option HowToFix) (script : Text)
    → apply_script name fix ≡ passes script
    → ((h : HowToFix) × (fix ≡ some h) × (h.apply ≡ script)) × (script ≢ [])
apply_script-passes name none script e = cc
apply_script-passes name (some h) script e = ((h, refl, ground arith), λ k. ground arith)

pub open_script-passes :
    (name : Text) (inc : Incident) (script : Text)
    → open_script name inc ≡ passes script
    → IsOpenWith inc script
unfolding open_script IsOpenWith
open_script-passes name inc script e =
    let (f, n) = apply_script-passes name inc.status.how_to_fix script (ground arith) in
    (ground arith, f, n)

pub free_of-passes : (name : Text) (u : Unit {0}) → free_of name ≡ passes u → name ≡ []
free_of-passes [] u e = refl
free_of-passes (c ∷ s) u e = cc

pub listed-passes :
    (read : Fetched (List IncidentApply)) (l : List IncidentApply)
    → listed read ≡ passes l
    → read ≡ found l
listed-passes (found m) l e = cc
listed-passes (fault f) l e = cc

pub reviewed-passes : (read : Fetched Bool) (b : Bool) → reviewed read ≡ passes b → read ≡ found b
reviewed-passes (found m) l e = cc
reviewed-passes (fault f) l e = cc

pub allowed_as-passes :
    (username name : Text) (b : Bool) (u : Unit {0})
    → allowed_as username name b ≡ passes u
    → b ≡ true
allowed_as-passes username name true u e = refl
allowed_as-passes username name false u e = cc
