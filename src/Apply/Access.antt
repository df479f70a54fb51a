-- ===== src/Apply/Access.antt =====
-- apply.go: kubeconfigOf, the requester's credentials and the kubeconfig made of them.
use incident_controller.Prelude.{
  ◌+◌, ◌++◌, ◌&&◌, not, ◌==◌, Text, Bool, true, false, Option, none, some, [], ◌∷◌, bytes, text_eq,
  is_empty, ltb, trim_space, if◌then◌else◌,
}
use incident_controller.Api.Meta.{Time, Duration, value_at}
use incident_controller.Api.Pod.{Secret}
use incident_controller.Server.{
  Fault, Fetched, found, fault, not_found, already_exists, no_match, other,
}
use incident_controller.Machine.Output.{pending_grace}

-- Why a step of the admission fails and is tried again.
pub data AdmitError : Type 0 where
  policy_not_read : Text → Fault → AdmitError
  incident_not_read applies_not_listed access_not_reviewed credentials_not_read : Fault → AdmitError
  kubeconfig_not_written : Text → AdmitError

-- What a step of the admission finds: `rejects` is a `why` that is not empty.
pub data Check (A : Type 0) : Type 0 where
  passes : A → Check A
  rejects : Text → Check A
  retries : AdmitError → Check A

infixl 5 ◌>>=◌
abbrev pub ◌>>=◌ : {A B : Type 0} → Check A → (A → Check B) → Check B
passes a >>= k = k a
rejects why >>= k = rejects why
retries e >>= k = retries e

-- A read whose missing object rejects the request.
abbrev pub or_rejects : {A : Type 0} → Fetched A → Text → (Fault → AdmitError) → Check A
or_rejects (found a) why wrap = passes a
or_rejects (fault not_found) why wrap = rejects why
or_rejects (fault already_exists) why wrap = retries (wrap already_exists)
or_rejects (fault no_match) why wrap = retries (wrap no_match)
or_rejects (fault (other t)) why wrap = retries (wrap (other t))

pub record Certificate : Type 0 where
  pub common_name : Text
  pub not_after : Time

pub data Parsed : Type 0 where
  parsed : Certificate → Parsed
  unreadable : Text → Parsed

-- The fields of clientcmd's Config that are set: one cluster, one user and one context.
pub record Kubeconfig : Type 0 where
  pub server : Text
  pub certificate_authority_data : Text
  pub client_certificate_data : Text
  pub client_key_data : Text

pub data Written : Type 0 where
  written : Text → Written
  unwritten : Text → Written

-- crypto/x509, encoding/pem, encoding/base64, clientcmd and kubeutil, and time's RFC3339 format.
-- Nothing is assumed of them.
pub record Libraries : Type 0 where
  pub dns_compatible : Text → Text
  pub base64_decode : Text → Option Text
  pub pem_decode : Text → Option Text
  pub parse_certificate : Text → Parsed
  pub time_text : Time → Text
  pub write_config : Kubeconfig → Written

pub record ApiServer : Type 0 where
  pub host : Text
  pub ca : Text

unfoldable pub credentials_suffix : Text
unfolding bytes
credentials_suffix = bytes "-clientconfig"

unfoldable pub key_client_cert : Text
unfolding bytes
key_client_cert = bytes "client-certificate-data"

unfoldable pub key_client_key : Text
unfolding bytes
key_client_key = bytes "client-key-data"

-- strings.HasPrefix.
unfoldable pub has_prefix : Text → Text → Bool
has_prefix s [] = true
has_prefix [] (_ ∷ _) = false
has_prefix (a ∷ s) (b ∷ t) = a == b && has_prefix s t

abbrev pub read_certificate : Text → Parsed → Check Certificate
read_certificate username (parsed cert) = passes cert
read_certificate username (unreadable e) =
    rejects (bytes "cannot read the client certificate of " ++ (username ++ (bytes ": " ++ e)))

module _ ⦃lib : Libraries⦄ where
  unfoldable pub pem_of : Text → Text
  unfolding trim_space bytes has_prefix
  pem_of b =
      let s = trim_space b in
      if has_prefix s (bytes "-----BEGIN")
      then s
      else elim (lib.base64_decode s) [ none ↦ [] | some d ↦ d ]

  -- The certificate of a secret, and the PEM data of certificate and key.
  abbrev pub certificate_in : Text → Text → Option Text → Check Certificate
  certificate_in username key none =
      rejects (bytes "the credentials of " ++ (username ++ bytes " hold no client certificate"))
  certificate_in username key (some block) =
      if is_empty key
      then rejects
          (bytes "the credentials of " ++ (username ++ bytes " hold no client certificate"))
      else read_certificate username (lib.parse_certificate block)

  abbrev pub valid_for : Text → Time → Certificate → Check Certificate
  valid_for username deadline cert =
      if not (text_eq cert.common_name username)
      then rejects
          (bytes "the credentials of " ++ (username ++ (bytes " are for " ++ cert.common_name)))
      else if ltb cert.not_after deadline
      then rejects (
          bytes "the login of "
          ++ (username
              ++ (bytes " expires at "
                  ++ (lib.time_text cert.not_after
                      ++ bytes ", before the run could finish: log in again"))))
      else passes cert

  abbrev pub config_text : Written → Check Text
  config_text (written b) = passes b
  config_text (unwritten e) = retries (kubeconfig_not_written e)

  unfoldable pub credentials_name : Text → Text
  unfolding credentials_suffix
  credentials_name username = lib.dns_compatible username ++ credentials_suffix

  -- `read` is the apiserver's answer for the Secret of that name.
  unfoldable pub kubeconfig_of :
      ApiServer → Duration → (Text → Fetched Secret) → Text → Time → Check Text
  unfolding pem_of key_client_cert key_client_key credentials_name
  kubeconfig_of api timeout read username now = do
    sec ←
        or_rejects (read (credentials_name username))
          (username ++ bytes " has no Krateo login credentials: log in again") credentials_not_read
    let cert_pem = pem_of (value_at sec.contents key_client_cert)
    let key_pem = pem_of (value_at sec.contents key_client_key)
    cert ← certificate_in username key_pem (lib.pem_decode cert_pem)
    valid ← valid_for username (now + (timeout + pending_grace)) cert
    config_text (
        lib.write_config (record {
          server = api.host;
          certificate_authority_data = api.ca;
          client_certificate_data = cert_pem;
          client_key_data = key_pem;
        }))
