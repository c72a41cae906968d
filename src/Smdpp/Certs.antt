-- ===== src/Smdpp/Certs.antt =====
-- How the server finds and checks certificate issuers: `ci_get_cert_for_pkid`,
-- `validate_certificate_chain_for_verification` and the choice of the key identifier in
-- `initiateAutentication` of osmo-smdpp.py.
use zk_e_sim_smdp.Common.{Bool, true, false, Option, none, some, List, [], ◌∷◌}
use zk_e_sim_smdp.Common.Outcome.{
  Outcome, ok, err, index_error, value_error, verify_error, expect, guard, ◌>>=◌, ◌>>◌,
}
use zk_e_sim_smdp.Common.Bytes.{Bytes, beq}
use zk_e_sim_smdp.X509.{
  Certificate, cert_get_subject_key_id, cert_policy_has_oid, id_rsp_role_ci, new_set,
  verify_cert_chain,
}
use zk_e_sim_smdp.Smdpp.{Backend, Config}

-- `load_certs_from_path`, on the certificates that the files hold
unfoldable pub load_certs : List Certificate → Outcome (List Certificate)
load_certs [] = ok []
load_certs (cert ∷ certs) = do
  guard (cert_policy_has_oid cert id_rsp_role_ci) value_error
  rest ← load_certs certs
  ok (cert ∷ rest)

-- A certificate without the subject key identifier extension raises IndexError.
unfoldable pub ci_get_cert_for_pkid : List Certificate → Bytes → Outcome (Option Certificate)
ci_get_cert_for_pkid [] ci_pkid = ok none
ci_get_cert_for_pkid (cert ∷ certs) ci_pkid = expect cert.subject_key_id index_error >>= λ pkid.
    elim (beq pkid ci_pkid) [ true ↦ ok (some cert) | false ↦ ci_get_cert_for_pkid certs ci_pkid ]

module _ (backend : Backend) (config : Config) where
  -- One round of `validate_certificate_chain_for_verification`: VerifyError goes on to the next.
  chain_of_dp_auth : Certificate → Outcome Bool
  chain_of_dp_auth ci_cert = do
    cs ← new_set backend.signed_by ci_cert
    elim (verify_cert_chain backend.signed_by cs config.dp_auth 100) [
      | ok done ↦ ok true
      | err verify_error ↦ ok false
      | err e ↦ err e
    ]

  unfoldable pub validate_certificate_chain : List Bytes → Outcome Bool
  unfolding chain_of_dp_auth
  validate_certificate_chain [] = ok false
  validate_certificate_chain (ci_pkid ∷ pkids) =
      ci_get_cert_for_pkid config.ci_certs ci_pkid >>= elim [
        | none ↦ validate_certificate_chain pkids
        | some ci_cert ↦
            chain_of_dp_auth ci_cert
            >>= elim [ true ↦ ok true | false ↦ validate_certificate_chain pkids ]
      ]

  -- `ci_cert and cert_get_subject_key_id(ci_cert) == self.dp_auth...key_identifier`
  is_own_issuer : Certificate → Outcome Bool
  is_own_issuer ci_cert = do
    ski ← cert_get_subject_key_id ci_cert
    aki ← expect config.dp_auth.auth_key_id index_error
    ok (beq ski aki)

  -- The loop over `pkid_list`: the first issuer that also issued the server's own certificate.
  unfoldable pub select_ci_cert : List Bytes → Outcome (Option Certificate)
  unfolding is_own_issuer
  select_ci_cert [] = ok none
  select_ci_cert (x ∷ pkid_list) = ci_get_cert_for_pkid config.ci_certs x >>= elim [
    | none ↦ select_ci_cert pkid_list
    | some ci_cert ↦
        is_own_issuer ci_cert
        >>= elim [ true ↦ ok (some ci_cert) | false ↦ select_ci_cert pkid_list ]
  ]
