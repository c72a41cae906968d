-- ===== src/Smdpp/Authenticate/Checks.antt =====
-- The parts of `authenticateClient`: reading the request, what is put into the session at once, and
-- the checks in their order.
use zk_e_sim_smdp.Common.{
  Bool, true, false, ◌&&◌, Option, none, some, List, [], ◌∷◌, ◌++◌, ◌==◌, if◌then◌else◌,
}
use zk_e_sim_smdp.Common.Outcome.{
  Outcome, ok, err, value_error, index_error, attribute_error, verify_error, api_error, Raised,
  guard, expect, ◌>>=◌, ◌>>◌,
}
use zk_e_sim_smdp.Common.Bytes.{Bytes, beq}
use zk_e_sim_smdp.Common.Hex.{Text}
use zk_e_sim_smdp.X509.{
  Certificate, cert_get_auth_key_id, new_set, add_intermediate_cert, verify_cert_chain,
}
use zk_e_sim_smdp.Session.{
  RspSessionState, ProfileMetadata, set_h_cert, new_metadata, add_notification,
}
use zk_e_sim_smdp.Extract.{extract_euicc_signed1}
use zk_e_sim_smdp.Pmo.{enable, disable, delete_profile, name_of}
use zk_e_sim_smdp.Es8p.{class_operational, gen_store_metadata_request}
use zk_e_sim_smdp.Smdpp.{
  Backend, Config, Moment, Content, EuiccSigned1, CtxParams1, common_authentication, other,
  authenticate_response_ok, authenticate_response_error, field,
}
use zk_e_sim_smdp.Smdpp.Signature.{ecdsa_tr03111_to_dss}
use zk_e_sim_smdp.Smdpp.Certs.{ci_get_cert_for_pkid}
use zk_e_sim_smdp.Smdpp.Eligibility.{take_eligibility, verify_eligibility}

-- A request whose certificates have been loaded.
pub record ClientRequest : Type 0 where
  pub transaction_id : Text
  pub signed1 : EuiccSigned1
  pub signed1_bin : Bytes
  pub signature1 : Bytes
  pub euicc_certificate_bin : Bytes
  pub euicc_cert : Certificate
  pub eum_cert : Certificate

pub record AuthenticateResponse : Type 0 where
  pub transaction_id : Text
  pub profile_metadata : Bytes
  pub smdp_signed2 : Bytes
  pub smdp_signature2 : Bytes
  pub smdp_certificate : Bytes

-- `os.path.join(upp_dir, matchingId)`: a name that begins with a slash stands for itself
unfoldable pub join_path : Text → Text → Text
join_path dir [] = dir ++ (47 ∷ [])
join_path dir (c ∷ name) = if c == 47 then c ∷ name else dir ++ (47 ∷ c ∷ name)

-- whether `os.path.commonprefix((path, dir)) == dir`, which compares character by character
unfoldable pub has_prefix : Text → Text → Bool
has_prefix [] path = true
has_prefix (c ∷ dir) [] = false
has_prefix (c ∷ dir) (d ∷ path) = c == d && has_prefix dir path

unfoldable pub first {ℓ} : {A : Type ℓ} → List A → Option A
first [] = none
first (x ∷ xs) = some x

-- ".der"
abbrev pub der_suffix : Text
der_suffix = 46 ∷ 100 ∷ 101 ∷ 114 ∷ []

-- `except VerifyError: raise ApiError('8.1.3', '6.1', ...)`
unfoldable pub as_api_error : Raised → Raised
as_api_error verify_error = api_error "8.1.3" "6.1"
as_api_error e = e

unfoldable pub refuse_chain : Outcome (Unit {0}) → Outcome (Unit {0})
refuse_chain (ok done) = ok tt
refuse_chain (err e) = err (as_api_error e)

module _ (backend : Backend) (config : Config) where
  -- `x509.load_der_x509_certificate`: a malformed certificate is an API error in zk mode only
  load_client_cert : Bytes → Outcome Certificate
  load_client_cert bin =
      expect (backend.load_certificate bin)
        (if config.zk_mode then api_error "8.1" "6.1" else value_error)

  unfoldable pub parse_client : Content → Outcome ClientRequest
  unfolding load_client_cert
  parse_client content = do
    transaction_id ← field content "transactionId"
    response_b64 ← field content "authenticateServerResponse"
    response_bin ← backend.b64decode response_b64
    response ← backend.decode_authenticate_server response_bin
    elim response [
      | authenticate_response_error ↦ err value_error
      | authenticate_response_ok r_ok ↦ do
        signed1_bin ← extract_euicc_signed1 backend.tlv response_bin
        euicc_certificate_bin ← backend.encode_certificate r_ok.euicc_certificate
        eum_certificate_bin ← backend.encode_certificate r_ok.eum_certificate
        euicc_cert ← load_client_cert euicc_certificate_bin
        eum_cert ← load_client_cert eum_certificate_bin
        ok (record {
          transaction_id = transaction_id;
          signed1 = r_ok.euicc_signed1;
          signed1_bin = signed1_bin;
          signature1 = r_ok.euicc_signature1;
          euicc_certificate_bin = euicc_certificate_bin;
          euicc_cert = euicc_cert;
          eum_cert = eum_cert;
        })
    ]

  -- The certificates and the hash of the client's certificate.
  unfoldable pub attach : ClientRequest → RspSessionState → RspSessionState
  attach request ss =
      set_h_cert
        (record ss { euicc_cert = some request.euicc_cert; eum_cert = some request.eum_cert })
        (backend.sha256 request.euicc_certificate_bin)

  -- `_ecdsa_verify`
  unfoldable pub ecdsa_verify : Certificate → Bytes → Bytes → Outcome Bool
  ecdsa_verify cert signature text = do
    dss_sig ← ecdsa_tr03111_to_dss backend.encode_dss signature
    ok (backend.key_verifies (backend.public_key cert) dss_sig text)

  -- The chain of the client's certificate; only VerifyError becomes an API error.
  unfoldable pub verify_chain : Certificate → Certificate → Bytes → Outcome (Unit {0})
  verify_chain euicc_cert eum_cert ci_cert_id = do
    found ← ci_get_cert_for_pkid config.ci_certs ci_cert_id
    ci_cert ← expect found attribute_error
    cs ← new_set backend.signed_by ci_cert
    cs' ← add_intermediate_cert backend.signed_by cs eum_cert
    refuse_chain (verify_cert_chain backend.signed_by cs' euicc_cert 100)

  -- The check of the chain, which zk mode leaves out.
  unfoldable pub check_chain : ClientRequest → RspSessionState → Outcome (Unit {0})
  check_chain request ss =
      if config.zk_mode
      then ok tt
      else (cert_get_auth_key_id request.eum_cert >>= λ aki.
          guard (beq aki ss.ci_cert_id) (api_error "8.11.1" "3.9")
          >> verify_chain request.euicc_cert request.eum_cert ss.ci_cert_id)

  -- `euiccSignature1` over `euiccSigned1`.
  unfoldable pub check_signature1 : ClientRequest → Outcome (Unit {0})
  check_signature1 request = do
    valid ← ecdsa_verify request.euicc_cert request.signature1 request.signed1_bin
    guard valid (api_error "8.1" "6.1")

  -- The profile that `matchingId` names, by its path, and the ICCID in it.
  unfoldable pub find_profile : Option Text → Outcome (Text × Bytes)
  find_profile none = err (api_error "8.2.6" "3.8")
  find_profile (some []) = err (api_error "8.2.6" "3.8")
  find_profile (some (c ∷ name)) = do
    let path = join_path config.upp_dir (c ∷ name) ++ der_suffix
    guard (has_prefix config.upp_dir (backend.realpath path)) (api_error "8.2.6" "3.8")
    guard (backend.readable path) (api_error "8.2.6" "3.8")
    iccid ← backend.profile_iccid path
    ok (c ∷ name, iccid)

  unfoldable pub check_context : CtxParams1 → Outcome (Text × Bytes)
  check_context (common_authentication matching_id) = find_profile matching_id
  check_context other = err (api_error "1.3.1" "2.2")

  -- The metadata of the profile, with notifications for all three operations.
  unfoldable pub profile_metadata : Text → Bytes → ProfileMetadata
  profile_metadata matching_id iccid_bin =
      add_notification (name_of delete_profile) config.server_hostname (
        add_notification (name_of disable) config.server_hostname (
          add_notification (name_of enable) config.server_hostname
            (new_metadata iccid_bin (backend.to_text "OsmocomSPN") matching_id class_operational)))

  -- The metadata and the signed answer.
  unfoldable pub answer :
      ClientRequest
      → Text
      → Bytes
      → RspSessionState
      → Outcome (RspSessionState × AuthenticateResponse)
  answer request matching_id iccid ss = do
    iccid_bin ← backend.codec.h2b (backend.swap_nibbles (backend.b2h iccid))
    let metadata = profile_metadata matching_id iccid_bin
    metadata_bin ← gen_store_metadata_request backend.ciphers backend.tlv backend.codec metadata
    transaction_id ← backend.codec.h2b ss.transaction_id
    smdp_signed2 ← backend.encode_smdp_signed2 transaction_id
    let signature2 =
        0x5f
        ∷ 0x37
        ∷ 0x40
        ∷ backend.codec.dp_pb_sign (smdp_signed2 ++ (0x5f ∷ 0x37 ∷ 0x40 ∷ request.signature1))
    ok (
      record ss { profile_metadata = some metadata; smdp_signature2_do = some signature2 },
      record {
        transaction_id = request.transaction_id;
        profile_metadata = metadata_bin;
        smdp_signed2 = smdp_signed2;
        smdp_signature2 = signature2;
        smdp_certificate = config.dp_pb.der;
      },
    )

  unfoldable pub zk_window : Moment → ClientRequest → RspSessionState → Outcome RspSessionState
  zk_window moment request ss =
      if config.zk_mode
      then take_eligibility backend moment.now request.signed1.eligibility_data ss
      else ok ss

  unfoldable pub zk_verify : ClientRequest → RspSessionState → Outcome RspSessionState
  zk_verify request ss =
      if config.zk_mode
      then verify_eligibility backend (backend.sha256 request.euicc_certificate_bin) ss
      else ok ss

  -- Everything behind the first write, in the order of the code.
  unfoldable pub check_client :
      Moment → ClientRequest → RspSessionState → Outcome (RspSessionState × AuthenticateResponse)
  unfolding first
  check_client moment request ss = do
    check_chain request ss
    check_signature1 request
    windowed ← zk_window moment request ss
    eid ← expect (first request.euicc_cert.serial_number) index_error
    let named = record windowed { eid = some (backend.to_text eid) }
    guard (beq request.signed1.server_challenge named.server_challenge) (api_error "8.1" "6.1")
    (matching_id, iccid) ← check_context request.signed1.ctx_params1
    verified ← zk_verify request (record named { matching_id = some matching_id })
    answer request matching_id iccid verified
