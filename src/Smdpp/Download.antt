-- ===== src/Smdpp/Download.antt =====
-- The handler `getBoundProfilePackage` of osmo-smdpp.py.
use zk_e_sim_smdp.Common.{some, [], ◌∷◌, ◌++◌, replicate, if◌then◌else◌}
use zk_e_sim_smdp.Common.Outcome.{
  Outcome, ok, err, type_error, attribute_error, api_error, guard, expect, ◌>>=◌, ◌>>◌,
}
use zk_e_sim_smdp.Common.Action as Action
use zk_e_sim_smdp.Common.Bytes.{Bytes, beq}
use zk_e_sim_smdp.Common.Hex.{Text}
use zk_e_sim_smdp.Bsp.{BspInstance, bsp_key_derivation, new_instance}
use zk_e_sim_smdp.Extract.{extract_euicc_signed2}
use zk_e_sim_smdp.Es8p.{BoundProfilePackage, from_ppp_package, from_upp, encode}
use zk_e_sim_smdp.Session.{RspSessionState}
use zk_e_sim_smdp.Session.Store
use zk_e_sim_smdp.Session.Store.{SessionStore}
use zk_e_sim_smdp.Smdpp.{
  Backend, Config, Moment, Content, EuiccSigned2, PrepareDownloadResponse, download_response_ok,
  download_response_error, field,
}
use zk_e_sim_smdp.Smdpp.Authenticate.Checks.{join_path, der_suffix}
use zk_e_sim_smdp.Smdpp.Finish.{session_verify}

pub record DownloadResponse : Type 0 where
  pub transaction_id : Text
  pub bound_profile_package : Bytes

-- b'mahlzeit'
abbrev pub own_host_id : Bytes
own_host_id = 109 ∷ 97 ∷ 104 ∷ 108 ∷ 122 ∷ 101 ∷ 105 ∷ 116 ∷ []

module _ (backend : Backend) (config : Config) where
  open backend use {codec, ciphers, tlv}

  -- The checks of a decoded response, up to the transaction identifier that was signed.
  unfoldable pub check_response :
      Text → Bytes → RspSessionState → PrepareDownloadResponse → Outcome EuiccSigned2
  check_response transaction_id response_bin ss download_response_error =
      err (api_error "8.1" "6.1")
  check_response transaction_id response_bin ss (download_response_ok signed2 signature2) = do
    signed2_bin ← extract_euicc_signed2 tlv response_bin
    signature2_do ← expect ss.smdp_signature2_do type_error
    valid ← session_verify backend config ss.euicc_cert signature2 (signed2_bin ++ signature2_do)
    guard valid (api_error "8.1" "6.1")
    id ← codec.h2b transaction_id
    guard (beq id signed2.transaction_id) (api_error "8.10.1" "3.9")
    ok signed2

  unfoldable pub check_download : Text → Content → RspSessionState → Outcome EuiccSigned2
  check_download transaction_id content ss = do
    response_b64 ← field content "prepareDownloadResponse"
    response_bin ← backend.b64decode response_b64
    response ← backend.decode_prepare_download response_bin
    check_response transaction_id response_bin ss response

  -- The keys of both sides, and the secret that they agree on.
  unfoldable pub agree_keys : Moment → EuiccSigned2 → RspSessionState → Outcome RspSessionState
  agree_keys moment signed2 ss = do
    shared_secret ← codec.exchange moment.one_time_key signed2.euicc_otpk
    ok (record ss {
      euicc_otpk = some signed2.euicc_otpk;
      smdp_ot = some moment.one_time_key;
      smdp_otpk = some (backend.public_point moment.one_time_key);
      host_id = some own_host_id;
      shared_secret = some shared_secret;
    })

  -- The keys that protect the profile: derived in zk mode, fixed otherwise.
  unfoldable pub profile_keys : Bytes → RspSessionState → Outcome BspInstance
  profile_keys shared_secret ss =
      if config.zk_mode
      then (expect ss.eid type_error >>= λ eid. codec.h2b eid >>= λ eid_bin.
          bsp_key_derivation ciphers tlv shared_secret 0x88 16 own_host_id eid_bin 16 >>= λ keys.
          ok (new_instance ciphers tlv keys.s_enc keys.s_mac keys.initial_mcv))
      else ok (new_instance ciphers tlv (replicate 16 0) (replicate 16 0x11) (replicate 16 0x22))

  -- The profile that the session names, protected.
  unfoldable pub bind_profile : RspSessionState → Outcome BoundProfilePackage
  bind_profile ss = do
    matching_id ← expect ss.matching_id attribute_error
    upp ← backend.read_profile (join_path config.upp_dir matching_id ++ der_suffix)
    shared_secret ← expect ss.shared_secret type_error
    bsp ← profile_keys shared_secret ss
    (ppp, bsp') ← from_upp ciphers tlv codec ss.profile_metadata upp bsp
    ok (from_ppp_package ppp)

  -- Everything in front of the write of the session.
  unfoldable pub prepare_package :
      Moment → Text → Content → RspSessionState → Outcome (RspSessionState × BoundProfilePackage)
  prepare_package moment transaction_id content ss = do
    signed2 ← check_download transaction_id content ss
    agreed ← agree_keys moment signed2 ss
    bpp ← bind_profile agreed
    ok (agreed, bpp)

  -- `getBoundProfilePackage`: the package is encoded after the session was written.
  unfoldable pub get_bound_profile_package :
      Moment → Content → Action.Action SessionStore DownloadResponse
  get_bound_profile_package moment content =
      Action.◌>>=◌ (Action.lift (field content "transactionId")) λ transaction_id.
        Action.◌>>=◌ (Action.gets (λ rss. rss)) λ rss.
          Action.◌>>=◌ (Action.expect (Store.get transaction_id rss) (api_error "8.10.1" "3.9"))
            λ ss.
              Action.◌>>=◌ (Action.lift (prepare_package moment transaction_id content ss))
                λ (ss', bpp). Action.◌>>=◌ (Action.modify (Store.put transaction_id ss')) λ _.
                  Action.◌>>=◌ (Action.lift (encode ciphers tlv codec ss' bpp)) λ bpp_bin.
                    Action.pure
                      (record { transaction_id = transaction_id; bound_profile_package = bpp_bin })
