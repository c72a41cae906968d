-- ===== src/Smdpp/Toy.antt =====
-- A small server and requests to it, for the theorems at concrete inputs. It accepts every signature,
-- and its encodings are the identity.
use zk_e_sim_smdp.Common.{
  ℕ, Bool, true, ◌||◌, length, Option, none, some, [], ◌∷◌, ◌++◌, take, replicate, ◌==◌,
  if◌then◌else◌,
}
use zk_e_sim_smdp.Common.Outcome as O
use zk_e_sim_smdp.Common.Outcome.{Outcome, ok, err, key_error, api_error}
use zk_e_sim_smdp.Common.Bytes.{Bytes, digits_be}
use zk_e_sim_smdp.X509.{Certificate, id_rsp_role_ci}
use zk_e_sim_smdp.Tlv.Ber.{ber}
use zk_e_sim_smdp.Bsp.{Ciphers}
use zk_e_sim_smdp.Es8p.{Codec}
use zk_e_sim_smdp.Merkle.{init}
use zk_e_sim_smdp.Session.{RspSessionState, new_session}
use zk_e_sim_smdp.Session.Store.{SessionStore}
use zk_e_sim_smdp.Smdpp.{
  Backend, Config, Moment, Content, EligibilityData, common_authentication,
  authenticate_response_ok, download_response_ok, cancel_session_ok, profile_installation_result,
}
use zk_e_sim_smdp.Smdpp.Eligibility.{fixed_expiry}

-- A certificate by its own key identifier and that of its issuer, with the role of an issuer.
abbrev pub issued_cert : ℕ → ℕ → Certificate
issued_cert ski aki = record {
  der = ski ∷ [];
  subject_key_id = some (ski ∷ []);
  auth_key_id = some (aki ∷ []);
  key_usage = some (record { key_cert_sign = true; crl_sign = true });
  policies = (id_rsp_role_ci ∷ []) ∷ [];
  serial_number = "8904" ∷ [];
}

abbrev pub ci_cert : Certificate
ci_cert = issued_cert 1 1

abbrev pub eum_cert : Certificate
eum_cert = issued_cert 2 1

abbrev pub cert : Certificate
cert = issued_cert 3 2

abbrev pub dp_cert : Certificate
dp_cert = issued_cert 7 1

abbrev pub load : Bytes → Option Certificate
load [] = none
load (b ∷ bs) = some (if b == 2 then eum_cert else cert)

abbrev pub raw : Bytes
raw = digits_be 32 5 (digits_be 32 7 [])

abbrev pub elig : EligibilityData
elig = record {
  hpid = 1 ∷ [];
  sig_cred = raw;
  auth_token = raw;
  acc_root = 1 ∷ [];
  sig_root = raw;
  acc_proof = [];
}

abbrev pub plain_ciphers : Ciphers
plain_ciphers = record {
  takes_key = λ key. length key == 16 || length key == 24 || length key == 32;
  aes_cbc_encrypt = λ key iv text. text;
  aes_cbc_decrypt = λ key iv text. text;
  aes_cmac = λ key text. take 16 (text ++ replicate 16 7);
  x963_kdf = λ secret len info. take len (secret ++ replicate len 5);
}

abbrev pub codec : Codec
codec = record {
  h2b = λ t. ok t;
  configure_isdp = [];
  encode_metadata = λ _. ok [];
  encode_secure_channel = λ _. ok [];
  decode_secure_channel = λ _. err O.value_error;
  encode_session_keys = λ _. ok [];
  decode_session_keys = λ _. err O.value_error;
  decode_configure_isdp = λ _. ok tt;
  decode_metadata = λ _. ok tt;
  exchange = λ key point. ok [];
  dp_pb_sign = λ _. 9 ∷ [];
}

abbrev pub backend : Backend
backend = record {
  sha256 = λ _. 1 ∷ [];
  public_key = λ _. [];
  key_verifies = λ _ _ _. true;
  encode_dss = λ r s. r ∷ s ∷ [];
  signed_by = λ _ _. true;
  load_certificate = load;
  b64decode = λ t. ok t;
  b2h = λ b. b;
  swap_nibbles = λ t. t;
  to_text = λ _. [];
  mno_public_key = λ _. [];
  dp_auth_sign = λ _. 9 ∷ [];
  realpath = λ t. t;
  readable = λ _. true;
  profile_iccid = λ _. ok (8 ∷ []);
  encode_certificate = λ b. ok b;
  encode_server_signed1 = λ _. ok [];
  encode_smdp_signed2 = λ b. ok b;
  encode_cancel_session = λ _. ok [];
  encode_installation_result = λ b. ok b;
  encode_notification_metadata = λ b. ok b;
  object_identifier = λ s. ok s;
  subject_alt_name = λ _. some ([], "2.999" ∷ []);
  decode_euicc_info1 = λ _. ok (record {
    pkids_for_signing = (1 ∷ []) ∷ [];
    pkids_for_signing_v3 = none;
    pkids_for_verification = none;
  });
  decode_authenticate_server = λ _. ok (
      authenticate_response_ok (record {
        euicc_signed1 = record {
          server_challenge = 6 ∷ [];
          ctx_params1 = common_authentication (some (77 ∷ []));
          eligibility_data = some elig;
        };
        euicc_signature1 = raw;
        euicc_certificate = 3 ∷ [];
        eum_certificate = 2 ∷ [];
      }));
  decode_prepare_download =
      λ _. ok (download_response_ok (record { transaction_id = 4 ∷ []; euicc_otpk = [] }) raw);
  decode_cancel_session =
      λ _. ok (cancel_session_ok (record { transaction_id = 4 ∷ []; smdp_oid = "2.999" }) raw);
  decode_pending_notification = λ _. ok (profile_installation_result (4 ∷ []) [] raw);
  public_point = λ _. [];
  read_profile = λ _. ok [];
  ciphers = plain_ciphers;
  tlv = ber;
  codec = codec;
}

abbrev pub server : Bool → Config
server zk_mode = record {
  server_hostname = 104 ∷ [];
  zk_mode = zk_mode;
  upp_dir = 117 ∷ [];
  ci_certs = ci_cert ∷ [];
  dp_auth = dp_cert;
  dp_pb = dp_cert;
}

abbrev pub moment : Moment
moment = record {
  now = 10;
  uuid = 4 ∷ [];
  random = 6 ∷ [];
  one_time_key = record { private_value = 1; curve = 0 };
}

-- A session of the transaction 4 that a client has been named for.
abbrev pub session : RspSessionState
session = record (new_session (4 ∷ []) (6 ∷ []) (1 ∷ [])) {
  euicc_cert = some cert;
  pk_mno = some [];
  mnoid = some [];
  expiry = some fixed_expiry;
  l_auth = some init;
  l_spent = some init;
}

abbrev pub shelf : SessionStore
shelf = (4 ∷ [], session) ∷ []

abbrev pub initiate : Content
initiate =
    ("smdpAddress", 104 ∷ []) ∷ ("euiccChallenge", digits_be 16 0 []) ∷ ("euiccInfo1", []) ∷ []

abbrev pub authenticate : Content
authenticate =
    ("transactionId", 4 ∷ [])
    ∷ ("authenticateServerResponse", 191 ∷ 56 ∷ 4 ∷ 160 ∷ 2 ∷ 48 ∷ 0 ∷ [])
    ∷ []

abbrev pub download : Content
download =
    ("transactionId", 4 ∷ [])
    ∷ ("prepareDownloadResponse", 191 ∷ 33 ∷ 4 ∷ 160 ∷ 2 ∷ 48 ∷ 0 ∷ [])
    ∷ []

abbrev pub cancel : Content
cancel = ("transactionId", 4 ∷ []) ∷ ("cancelSessionResponse", []) ∷ []
