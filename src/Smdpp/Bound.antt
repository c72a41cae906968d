-- ===== src/Smdpp/Bound.antt =====
-- What `getBoundProfilePackage` of osmo-smdpp.py has verified and written when it returns.
use zk_e_sim_smdp.Common.{true, some, ◌++◌, ◌≡◌, if◌then◌else◌}
use zk_e_sim_smdp.Common.Outcome as O
use zk_e_sim_smdp.Common.Outcome.{
  Outcome, ok, err, type_error, api_error, bind_ok, bind_guard, bind_expect, guard_ok, expect_ok,
}
use zk_e_sim_smdp.Common.Action.{lift_returned}
use zk_e_sim_smdp.Common.Bytes.{Bytes, beq, beq→eq}
use zk_e_sim_smdp.Common.Hex.{Text}
use zk_e_sim_smdp.Extract.{extract_euicc_signed2}
use zk_e_sim_smdp.Es8p.{BoundProfilePackage, encode}
use zk_e_sim_smdp.Session.{RspSessionState}
use zk_e_sim_smdp.Session.Store
use zk_e_sim_smdp.Session.Store.{SessionStore, get-put}
use zk_e_sim_smdp.Smdpp.{
  Backend, Config, Moment, Content, EuiccSigned2, PrepareDownloadResponse, download_response_ok,
  download_response_error, field,
}
use zk_e_sim_smdp.Smdpp.Finish.{session_verify}
use zk_e_sim_smdp.Smdpp.Download.{
  DownloadResponse, check_response, check_download, agree_keys, bind_profile, prepare_package,
  get_bound_profile_package,
}

module _ (backend : Backend) (config : Config) where
  -- What a request that was confirmed has shown: it carries the response `signed2`, whose signed bytes,
  -- cut out of the request, stand with the server's own signature of the step before under a signature
  -- of the request that the session's certificate verifies; and the identifier that was signed is that
  -- of the session.
  unfoldable pub Confirmed : Text → Content → RspSessionState → EuiccSigned2 → Type 0
  Confirmed id content ss signed2 =
      (b64 : Text) × (bin : Bytes) × (signature2 : Bytes) × (signed2_bin : Bytes)
      × (signature2_do : Bytes) × (field content "prepareDownloadResponse" ≡ ok b64)
      × (backend.b64decode b64 ≡ ok bin)
      × (backend.decode_prepare_download bin ≡ ok (download_response_ok signed2 signature2))
      × (extract_euicc_signed2 backend.tlv bin ≡ ok signed2_bin)
      × (ss.smdp_signature2_do ≡ some signature2_do)
      × (session_verify backend config ss.euicc_cert signature2 (signed2_bin ++ signature2_do)
          ≡ ok true)
      × (backend.codec.h2b id ≡ ok signed2.transaction_id)

  response-Confirmed :
      (id : Text) (content : Content) (b64 : Text) (bin : Bytes) (ss : RspSessionState)
      (response : PrepareDownloadResponse) (signed2 : EuiccSigned2)
      → field content "prepareDownloadResponse" ≡ ok b64
      → backend.b64decode b64 ≡ ok bin
      → backend.decode_prepare_download bin ≡ ok response
      → check_response backend config id bin ss response ≡ ok signed2
      → Confirmed id content ss signed2
  unfolding check_response Confirmed
  response-Confirmed id content b64 bin ss download_response_error signed2 f₁ f₂ f₃ h = absurd (cc)
  response-Confirmed id content b64 bin ss (download_response_ok given signature2) signed2 f₁ f₂ f₃
        h =
      bind_ok (extract_euicc_signed2 backend.tlv bin) _ h λ signed2_bin e₁ h₁.
        bind_expect ss.smdp_signature2_do type_error _ h₁ λ signature2_do e₂ h₂.
          bind_ok
            (session_verify backend config ss.euicc_cert signature2 (signed2_bin ++ signature2_do))
            _ h₂
            λ valid e₃ h₃. bind_guard valid (api_error "8.1" "6.1") _ h₃ λ holds h₄.
              bind_ok (backend.codec.h2b id) _ h₄ λ expected e₅ h₅.
                bind_guard (beq expected given.transaction_id) (api_error "8.10.1" "3.9") _ h₅
                  λ same h₆.
                    let signed_id : expected ≡ given.transaction_id =
                      beq→eq expected given.transaction_id same in
                    let it : given ≡ signed2 = cc in
                    rw (← it)
                      (b64, bin, signature2, signed2_bin, signature2_do, f₁, f₂, f₃, e₁, e₂, cc, cc)

  pub confirmed :
      (id : Text) (content : Content) (ss : RspSessionState) (signed2 : EuiccSigned2)
      → check_download backend config id content ss ≡ ok signed2
      → Confirmed id content ss signed2
  unfolding check_download
  confirmed id content ss signed2 h =
      bind_ok (field content "prepareDownloadResponse") _ h λ b64 e₁ h₁.
        bind_ok (backend.b64decode b64) _ h₁ λ bin e₂ h₂.
          bind_ok (backend.decode_prepare_download bin) _ h₂
            λ response e₃ h₃. response-Confirmed id content b64 bin ss response signed2 e₁ e₂ e₃ h₃

  prepared :
      (moment : Moment) (id : Text) (content : Content) (ss ss' : RspSessionState)
      (bpp : BoundProfilePackage)
      → prepare_package backend config moment id content ss ≡ ok (ss', bpp)
      → (signed2 : EuiccSigned2) × Confirmed id content ss signed2
        × (ss'.euicc_otpk ≡ some signed2.euicc_otpk)
  unfolding prepare_package agree_keys
  prepared moment id content ss ss' bpp h =
      bind_ok (check_download backend config id content ss) _ h λ signed2 e₁ h₁.
        bind_ok (agree_keys backend config moment signed2 ss) _ h₁ λ agreed e₂ h₂.
          bind_ok (backend.codec.exchange moment.one_time_key signed2.euicc_otpk) _ e₂
            λ secret e₃ h₃. bind_ok (bind_profile backend config agreed) _ h₂ λ bpp' e₄ h₄.
              let kept : agreed.euicc_otpk ≡ some signed2.euicc_otpk = cc in
              (signed2, confirmed id content ss signed2 e₁, cc)

  pub Delivered : Content → SessionStore → SessionStore → Type 0
  Delivered content rss rss' =
      (id : Text) × (ss : RspSessionState) × (ss' : RspSessionState) × (signed2 : EuiccSigned2)
      × (field content "transactionId" ≡ ok id)
      × (Store.get id rss ≡ some ss)
      × Confirmed id content ss signed2
      × (ss'.euicc_otpk ≡ some signed2.euicc_otpk)
      × ((other : Text)
          → Store.get other rss' ≡ (if beq id other then some ss' else Store.get other rss))

  -- When `getBoundProfilePackage` returns, the certificate of the session that the request names has
  -- verified the request's signature over the signed part of the request and the server's own signature;
  -- the identifier in the signed part is that of the session; and only that session has changed: it
  -- holds the client's one-time key of the signed part.
  pub get_bound_profile_package-Delivered :
      (moment : Moment) (content : Content) (rss rss' : SessionStore) (response : DownloadResponse)
      → get_bound_profile_package backend config moment content rss ≡ (ok response, rss')
      → Delivered content rss rss'
  unfolding get_bound_profile_package Delivered
  get_bound_profile_package-Delivered moment content rss rss' response h =
      lift_returned (field content "transactionId") _ rss rss' h λ id e₁ h₁.
        lift_returned (O.expect (Store.get id rss) (api_error "8.10.1" "3.9")) _ rss rss' h₁
          λ ss e₂ h₂.
            lift_returned (prepare_package backend config moment id content ss) _ rss rss' h₂
              λ (ss', bpp) e₃ h₃.
                lift_returned (encode backend.ciphers backend.tlv backend.codec ss' bpp) _
                  (Store.put id ss' rss) rss' h₃
                  λ bin e₄ h₄.
                    let (signed2, all, key) = prepared moment id content ss ss' bpp e₃ in
                    let now : rss' ≡ Store.put id ss' rss = cc in
                    (
                      id,
                      ss,
                      ss',
                      signed2,
                      e₁,
                      expect_ok _ _ e₂,
                      all,
                      key,
                      λ other. rw now (get-put id other ss' rss),
                    )
