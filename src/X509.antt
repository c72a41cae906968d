-- ===== src/X509.antt =====
-- Certificate chains: `check_signed`, the readers of extensions and `CertificateSet` of
-- pySim/esim/x509_cert.py. A certificate of the package `cryptography` is the record of what this
-- code reads off it; whether a signature verifies is a parameter.
pub mod Chain
mod Runs
use zk_e_sim_smdp.Common.{
  ℕ, zero, suc, ◌-◌, String, Bool, true, false, not, ◌||◌, Option, none, some, List, [], ◌∷◌,
  if◌then◌else◌,
}
use zk_e_sim_smdp.Common.Outcome.{
  Outcome, ok, err, value_error, verify_error, invalid_signature, extension_not_found, guard,
  expect, ◌>>=◌, ◌>>◌,
}
use zk_e_sim_smdp.Common.Bytes.{Bytes, beq}
use text.Mathlib.Text.{◌==◌ as str_eq}

pub record KeyUsage : Type 0 where
  pub key_cert_sign : Bool
  pub crl_sign : Bool

-- `none` is an extension that the certificate does not have.
pub record Certificate : Type 0 where
  pub der : Bytes
  pub subject_key_id : Option Bytes
  pub auth_key_id : Option Bytes
  pub key_usage : Option KeyUsage
  pub policies : List (List String)
  pub serial_number : List String

unfoldable pub cert_get_subject_key_id : Certificate → Outcome Bytes
cert_get_subject_key_id cert = expect cert.subject_key_id extension_not_found

unfoldable pub cert_get_auth_key_id : Certificate → Outcome Bytes
cert_get_auth_key_id cert = expect cert.auth_key_id extension_not_found

any_equal : List String → String → Bool
any_equal [] match_oid = false
any_equal (policy ∷ rest) match_oid = str_eq policy match_oid || any_equal rest match_oid

policies_have_oid : List (List String) → String → Bool
unfolding any_equal
policies_have_oid [] match_oid = false
policies_have_oid (ext ∷ exts) match_oid =
    any_equal ext match_oid || policies_have_oid exts match_oid

unfoldable pub cert_policy_has_oid : Certificate → String → Bool
unfolding policies_have_oid
cert_policy_has_oid cert match_oid = policies_have_oid cert.policies match_oid

abbrev pub id_rsp_role_ci : String
id_rsp_role_ci = "2.23.146.1.2.1.0"

pub record CertificateSet : Type 0 where
  pub root_cert : Certificate
  pub intermediate_certs : List (Bytes × Certificate)

-- `self.intermediate_certs.get(aki, None)`
unfoldable pub lookup : Bytes → List (Bytes × Certificate) → Option Certificate
lookup key [] = none
lookup key ((k, cert) ∷ certs) = if beq k key then some cert else lookup key certs

-- `self.intermediate_certs[ski] = cert`
unfoldable pub insert :
    Bytes → Certificate → List (Bytes × Certificate) → List (Bytes × Certificate)
insert key cert [] = (key, cert) ∷ []
insert key cert ((k, old) ∷ certs) =
    if beq k key then (k, cert) ∷ certs else (k, old) ∷ insert key cert certs

-- `signed_by c s`: the public key of `s` verifies the signature of `c`.
module _ (signed_by : Certificate → Certificate → Bool) where
  unfoldable pub check_signed : Certificate → Certificate → Outcome (Unit {0})
  check_signed signed signer = guard (signed_by signed signer) invalid_signature

  -- `CertificateSet(root_cert)`
  unfoldable pub new_set : Certificate → Outcome CertificateSet
  unfolding check_signed cert_policy_has_oid
  new_set root_cert = do
    check_signed root_cert root_cert
    guard (cert_policy_has_oid root_cert id_rsp_role_ci) value_error
    usage ← expect root_cert.key_usage extension_not_found
    guard usage.key_cert_sign value_error
    guard usage.crl_sign value_error
    ok (record { root_cert = root_cert; intermediate_certs = [] })

  unfoldable pub add_intermediate_cert : CertificateSet → Certificate → Outcome CertificateSet
  unfolding cert_get_auth_key_id cert_get_subject_key_id
  add_intermediate_cert cs cert = do
    usage ← expect cert.key_usage extension_not_found
    guard usage.key_cert_sign value_error
    aki ← cert_get_auth_key_id cert
    ski ← cert_get_subject_key_id cert
    guard (not (beq aki ski)) value_error
    ok (record cs { intermediate_certs = insert ski cert cs.intermediate_certs })

  -- One round of the loop of `verify_cert_chain`: `none` is the return at the root, `some parent`
  -- goes on with the parent.
  unfoldable pub chain_step : CertificateSet → Certificate → Outcome (Option Certificate)
  unfolding cert_get_auth_key_id cert_get_subject_key_id check_signed
  chain_step cs c = do
    aki ← cert_get_auth_key_id c
    root_cert_id ← cert_get_subject_key_id cs.root_cert
    if beq aki root_cert_id
        then (check_signed c cs.root_cert >> ok none)
        else (expect (lookup aki cs.intermediate_certs) verify_error >>= λ parent_cert.
            check_signed c parent_cert >> ok (some parent_cert))

  -- The loop, with the number of rounds that may follow this one.
  unfoldable pub chain_loop : ℕ → CertificateSet → Certificate → Outcome (Unit {0})
  chain_loop zero cs c =
      chain_step cs c >>= λ r. elim r [ none ↦ ok tt | some parent_cert ↦ err verify_error ]
  chain_loop (suc left) cs c = chain_step cs c >>= λ r. elim r [
    | none ↦ ok tt
    | some parent_cert ↦ chain_loop left cs parent_cert
  ]

  unfoldable pub verify_cert_chain : CertificateSet → Certificate → ℕ → Outcome (Unit {0})
  verify_cert_chain cs cert max_depth = chain_loop (max_depth - 1) cs cert
