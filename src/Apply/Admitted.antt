-- ===== src/Apply/Admitted.antt =====
-- apply.go: what holds of a request that is admitted to run.
use incident_controller.Prelude.{◌∙◌, ap, subst, ◌+◌, ◌≡◌, ◌≢◌, Text, true, List, [], arith, All}
use incident_controller.Api.Meta.{Time, Duration}
use incident_controller.Api.Incident.{Incident}
use incident_controller.Api.IncidentApply.{IncidentApply}
use incident_controller.Api.Pod.{Secret}
use incident_controller.Server.{found}
use incident_controller.Machine.Output.{pending_grace}
use incident_controller.Apply.Requests.{busy_in}
use incident_controller.Apply.Access.{
  passes, or_rejects, Libraries, ApiServer, kubeconfig_of, credentials_name,
}
use incident_controller.Apply.Admission.{
  ApplyStart, Reads, vouched_in, policy_kinds, open_script, free_of, listed, reviewed, allowed_as,
  admit_user, admit,
}
use incident_controller.Apply.Granted.{
  bind-passes, or_rejects-passes, IsVouched, IsOpenWith, vouched_in-passes, open_script-passes,
  free_of-passes, listed-passes, reviewed-passes, allowed_as-passes,
}
use incident_controller.Apply.Credentials.{IsUsable, kubeconfig_of-passes}

passes-injective : {A : Type 0} (a b : A) → passes a ≡ passes b → a ≡ b
passes-injective a b e = cc

module _ ⦃lib : Libraries⦄ where
  -- All that the admission of a request rests on, by the answers that it read.
  pub record IsGranted (timeout : Duration) (reads : Reads) (ia : IncidentApply) (now : Time)
      (script : Text) : Type 0 where
    pub vouched : All (IsVouched reads.policy ia.meta.creation_timestamp) policy_kinds
    pub inc : Incident
    pub incident_read : reads.incident ≡ found inc
    pub open_with : IsOpenWith inc script
    pub applies : List IncidentApply
    pub applies_read : reads.applies ≡ found applies
    pub first : busy_in ia applies ≡ []
    pub may_patch : reads.review ia.spec.requested_by inc ≡ found true
    pub sec : Secret
    pub sec_read : reads.credentials (credentials_name ia.spec.requested_by.username) ≡ found sec
    pub usable : IsUsable ia.spec.requested_by.username (now + (timeout + pending_grace)) sec

  admit_user-IsGranted :
      (api : ApiServer) (timeout : Duration) (reads : Reads) (ia : IncidentApply) (now : Time)
      (start : ApplyStart)
      → admit_user api timeout reads ia now ≡ passes start
      → IsGranted timeout reads ia now start.script
  unfolding admit_user
  admit_user-IsGranted api timeout reads ia now start e =
      let (u, v, e1) = bind-passes (vouched_in policy_kinds reads.policy _) _ start e in
      let (inc, i, e2) = bind-passes (or_rejects reads.incident _ _) _ start e1 in
      let (script, o, e3) = bind-passes (open_script _ inc) _ start e2 in
      let (l, r, e4) = bind-passes (listed reads.applies) _ start e3 in
      let (w, f, e5) = bind-passes (free_of (busy_in ia l)) _ start e4 in
      let (b, m, e6) = bind-passes (reviewed (reads.review ia.spec.requested_by inc)) _ start e5 in
      let (x, a, e7) = bind-passes (allowed_as _ _ b) _ start e6 in
      let (k, c, e8) = bind-passes (kubeconfig_of api timeout reads.credentials _ now) _ start e7 in
      let (sec, s, usable) = kubeconfig_of-passes api timeout reads.credentials _ now k c in
      record {
        vouched = vouched_in-passes policy_kinds reads.policy _ u v;
        inc = inc;
        incident_read = or_rejects-passes reads.incident _ _ inc i;
        open_with =
            subst (IsOpenWith inc) (ap (λ st. st.script) (passes-injective _ start e8))
              (open_script-passes _ inc script o);
        applies = l;
        applies_read = listed-passes reads.applies l r;
        first = free_of-passes (busy_in ia l) w f;
        may_patch =
            reviewed-passes (reads.review ia.spec.requested_by inc) b m
            ∙ ap found (allowed_as-passes _ _ b x a);
        sec = sec;
        sec_read = s;
        usable = usable;
      }

  -- A request is admitted only if it names its requester; the admission policy and its binding
  -- were there before it; its incident is Open and has the script that will run; no other
  -- request goes first; the requester may patch the incident; and the requester's own client
  -- certificate outlasts the run.
  pub admit-IsGranted :
      (api : ApiServer) (timeout : Duration) (reads : Reads) (ia : IncidentApply) (now : Time)
      (start : ApplyStart)
      → admit api timeout reads ia now ≡ passes start
      → (ia.spec.requested_by.username ≢ []) × IsGranted timeout reads ia now start.script
  unfolding admit
  admit-IsGranted api timeout reads ia now start e = (
    λ h. ground (arith, e, h),
    admit_user-IsGranted api timeout reads ia now start (ground (arith, e)),
  )
