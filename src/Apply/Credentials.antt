-- ===== src/Apply/Credentials.antt =====
-- apply.go: what holds of credentials that a kubeconfig is made of.
use incident_controller.Prelude.{◌+◌, ◌≤◌, ◌≡◌, Text, Option, none, some, refl, arith, text_eq_iff}
use incident_controller.Api.Meta.{Time, Duration, value_at}
use incident_controller.Api.Pod.{Secret}
use incident_controller.Server.{Fetched, found}
use incident_controller.Machine.Output.{pending_grace}
use incident_controller.Apply.Access.{
  passes, or_rejects, Libraries, ApiServer, kubeconfig_of, Certificate, Parsed, parsed, unreadable,
  credentials_name, pem_of, key_client_cert, certificate_in, read_certificate, valid_for,
}
use incident_controller.Apply.Granted.{bind-passes, or_rejects-passes}

read_certificate-passes :
    (username : Text) (answer : Parsed) (cert : Certificate)
    → read_certificate username answer ≡ passes cert
    → answer ≡ parsed cert
read_certificate-passes username (parsed c) cert e = cc
read_certificate-passes username (unreadable t) cert e = cc

module _ ⦃lib : Libraries⦄ where
  -- The client certificate of a Secret is the user's own and valid until the deadline.
  pub record IsUsable (username : Text) (deadline : Time) (sec : Secret) : Type 0 where
    pub block : Text
    pub cert : Certificate
    pub decoded : lib.pem_decode (pem_of (value_at sec.contents key_client_cert)) ≡ some block
    pub read : lib.parse_certificate block ≡ parsed cert
    pub own : cert.common_name ≡ username
    pub outlasts : deadline ≤ cert.not_after

  certificate_in-passes :
      (username key : Text) (o : Option Text) (cert : Certificate)
      → certificate_in username key o ≡ passes cert
      → (block : Text) × (o ≡ some block) × (lib.parse_certificate block ≡ parsed cert)
  certificate_in-passes username key none cert e = cc
  certificate_in-passes username key (some block) cert e = (
    block,
    refl,
    read_certificate-passes username (lib.parse_certificate block) cert (ground arith),
  )

  valid_for-passes :
      (username : Text) (deadline : Time) (cert valid : Certificate)
      → valid_for username deadline cert ≡ passes valid
      → (cert.common_name ≡ username) × (deadline ≤ cert.not_after)
  valid_for-passes username deadline cert valid e =
      ground (arith, text_eq_iff cert.common_name username)

  -- The kubeconfig that is passed on is made of the credentials of the user.
  pub kubeconfig_of-passes :
      (api : ApiServer) (timeout : Duration) (read : Text → Fetched Secret) (username : Text)
      (now : Time) (kubeconfig : Text)
      → kubeconfig_of api timeout read username now ≡ passes kubeconfig
      → (sec : Secret) × (read (credentials_name username) ≡ found sec)
        × IsUsable username (now + (timeout + pending_grace)) sec
  unfolding kubeconfig_of
  kubeconfig_of-passes api timeout read username now kubeconfig e =
      let (sec, s, e1) =
        bind-passes (or_rejects (read (credentials_name username)) _ _) _ kubeconfig e in
      let (cert, c, e2) =
        bind-passes (certificate_in username _ (lib.pem_decode _)) _ kubeconfig e1 in
      let (valid, v, e3) = bind-passes (valid_for username _ cert) _ kubeconfig e2 in
      let (block, d, r) = certificate_in-passes username _ _ cert c in
      let (own, outlasts) = valid_for-passes username _ cert valid v in
      (
        sec,
        or_rejects-passes (read (credentials_name username)) _ _ sec s,
        record {
          block = block;
          cert = cert;
          decoded = d;
          read = r;
          own = own;
          outlasts = outlasts;
        },
      )
