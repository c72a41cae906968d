-- ===== src/Smdpp/Verified/Issuers.antt =====
-- The issuer of the client's certificate when `authenticateClient` of osmo-smdpp.py returns.
use zk_e_sim_smdp.Common.{ℕ, false, some, ◌≡◌, refl, ap, ◌∙◌, ◌<◌, arith}
use zk_e_sim_smdp.Common.Outcome.{
  Outcome, ok, err, api_error, attribute_error, extension_not_found, bind_ok, bind_guard,
  bind_expect, expect_ok,
}
use zk_e_sim_smdp.Common.Bytes.{beq, beq→eq}
use zk_e_sim_smdp.X509.{
  Certificate, CertificateSet, cert_get_auth_key_id, new_set, add_intermediate_cert,
  verify_cert_chain,
}
use zk_e_sim_smdp.X509.Chain.{Chain, verify_cert_chain_iff}
use zk_e_sim_smdp.Session.{RspSessionState}
use zk_e_sim_smdp.Smdpp.{Backend, Config, Moment}
use zk_e_sim_smdp.Smdpp.Certs.{ci_get_cert_for_pkid}
use zk_e_sim_smdp.Smdpp.Authenticate.Checks.{
  ClientRequest, AuthenticateResponse, verify_chain, refuse_chain, check_chain,
}
use zk_e_sim_smdp.Session.{set_h_cert}
use zk_e_sim_smdp.Session.Store
use zk_e_sim_smdp.Session.Store.{SessionStore}
use zk_e_sim_smdp.Smdpp.{Content}
use zk_e_sim_smdp.Smdpp.Authenticate.{authenticate_client}
use zk_e_sim_smdp.Smdpp.Authenticate.Checks.{parse_client, attach}
use zk_e_sim_smdp.Smdpp.Opening.{authenticate_client_accepted}
use zk_e_sim_smdp.Smdpp.Verified.{Passed, check_client-Passed}

module _ (backend : Backend) (config : Config) where
  open backend use {encode_dss, key_verifies, public_key, sha256, realpath, readable}

  -- A chain of fewer than a hundred links leads from the certificate of the client through that of
  -- its manufacturer to an issuer that the server knows, the one that the session was opened for.
  pub Chained : ClientRequest → RspSessionState → Type 0
  Chained request ss =
      (ci_cert : Certificate) × (cs : CertificateSet) × (cs' : CertificateSet) × (n : ℕ)
      × (request.eum_cert.auth_key_id ≡ some ss.ci_cert_id)
      × (ci_get_cert_for_pkid config.ci_certs ss.ci_cert_id ≡ ok (some ci_cert))
      × (new_set backend.signed_by ci_cert ≡ ok cs)
      × (add_intermediate_cert backend.signed_by cs request.eum_cert ≡ ok cs')
      × (n < 100)
      × Chain backend.signed_by cs' n request.euicc_cert

  accepted_chain : (o : Outcome (Unit {0})) {u : Unit {0}} → refuse_chain o ≡ ok u → o ≡ ok tt
  unfolding refuse_chain
  accepted_chain (ok done) h = refl
  accepted_chain (err e) h = absurd (cc)

  check_chain_holds :
      (request : ClientRequest) (ss : RspSessionState) {u : Unit {0}}
      → config.zk_mode ≡ false
      → check_chain backend config request ss ≡ ok u
      → Chained request ss
  unfolding check_chain verify_chain Chained cert_get_auth_key_id
  check_chain_holds request ss plain h =
      bind_ok (cert_get_auth_key_id request.eum_cert) _ (rw plain at h) λ aki e₁ h₁.
        bind_guard (beq aki ss.ci_cert_id) (api_error "8.11.1" "3.9") _ h₁ λ same h₂.
          bind_ok (ci_get_cert_for_pkid config.ci_certs ss.ci_cert_id) _ h₂ λ found e₂ h₃.
            bind_expect found attribute_error _ h₃ λ ci_cert e₃ h₄.
              bind_ok (new_set backend.signed_by ci_cert) _ h₄ λ cs e₄ h₅.
                bind_ok (add_intermediate_cert backend.signed_by cs request.eum_cert) _ h₅
                  λ cs' e₅ h₆.
                    let (n, b, chain) =
                      (verify_cert_chain_iff backend.signed_by cs' request.euicc_cert 100
                          (omega arith)).0
                        (accepted_chain
                          (verify_cert_chain backend.signed_by cs' request.euicc_cert 100) h₆) in
                    (
                      ci_cert,
                      cs,
                      cs',
                      n,
                      expect_ok request.eum_cert.auth_key_id extension_not_found e₁
                          ∙ ap some (beq→eq aki ss.ci_cert_id same),
                      cc,
                      e₄,
                      e₅,
                      b,
                      chain,
                    )

  pub Issued : Content → SessionStore → Type 0
  Issued content rss =
      (request : ClientRequest) × (ss : RspSessionState) × (parse_client backend config content
        ≡ ok request)
      × (Store.get request.transaction_id rss ≡ some ss)
      × Chained request ss

  -- Outside zk mode, whenever `authenticateClient` returns, the certificate of the client chains up to
  -- the issuer that the session was opened for.
  pub authenticate_client_chained :
      (moment : Moment) (content : Content) (rss rss' : SessionStore)
      (response : AuthenticateResponse)
      → config.zk_mode ≡ false
      → authenticate_client backend config moment content rss ≡ (ok response, rss')
      → Issued content rss
  unfolding Issued Passed attach set_h_cert Chained
  authenticate_client_chained moment content rss rss' response plain h =
      let (request, ss, ss', parsed, found, checked, now) =
        authenticate_client_accepted backend config moment content rss rss' response h in
      let (w, v, eid, matching_id, iccid, chain, signed, z, fresh, names, y, a) =
        check_client-Passed backend config moment request (attach backend config request ss) ss'
          response checked in
      (
        request,
        ss,
        parsed,
        found,
        check_chain_holds request (attach backend config request ss) plain chain,
      )
