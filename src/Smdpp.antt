-- ===== src/Smdpp.antt =====
-- `SmDppHttpServer` of osmo-smdpp.py: its configuration, what it takes from packages that it only
-- calls, the messages that it decodes, and the helpers that its handlers share. The handlers are in
-- the modules below: each is an action on the session store.
pub mod Signature
pub mod Certs
pub mod Eligibility
pub mod Initiate
pub mod Authenticate
pub mod Download
pub mod Finish
pub mod Opening
pub mod Sessions
pub mod Verified
pub mod Proofs
pub mod Tokens
pub mod Bound
pub mod Machine
pub mod Http
pub mod Eid
pub mod Oid
pub mod Toy
mod Runs
use zk_e_sim_smdp.Common.{
  ℕ, zero, suc, ◌*◌, String, Bool, true, false, not, Option, none, some, List, [], ◌∷◌, ◌++◌,
  length, if◌then◌else◌,
}
use zk_e_sim_smdp.Common.Outcome.{Outcome, ok, err, key_error, value_error, expect, Raised, ◌>>=◌}
use zk_e_sim_smdp.Common.Bytes.{Bytes, beq}
use zk_e_sim_smdp.Common.Hex.{Text}
use zk_e_sim_smdp.X509.{Certificate}
use zk_e_sim_smdp.Session.{PrivateKey, RspSessionState, ProfileMetadata}
use zk_e_sim_smdp.Tlv.{Tlv}
use zk_e_sim_smdp.Bsp.{Ciphers}
use zk_e_sim_smdp.Es8p.{Codec}
use text.Mathlib.Text.{◌==◌ as str_eq}

-- The JSON object of a request, with its strings.
abbrev pub Content : Type 0
Content = List (String × Text)

-- `content[key]`
unfoldable pub field : Content → String → Outcome Text
field [] key = err key_error
field ((k, v) ∷ content) key = if str_eq k key then ok v else field content key

pub record ServerSigned1 : Type 0 where
  pub transaction_id : Bytes
  pub euicc_challenge : Bytes
  pub server_address : Text
  pub server_challenge : Bytes

-- `euiccCiPKIdListForSigningV3` and `...ForVerification` may be missing.
pub record EuiccInfo1 : Type 0 where
  pub pkids_for_signing : List Bytes
  pub pkids_for_signing_v3 : Option (List Bytes)
  pub pkids_for_verification : Option (List Bytes)

-- The eligibility data of the ZK extension in `euiccSigned1`.
pub record EligibilityData : Type 0 where
  pub hpid : Bytes
  pub sig_cred : Bytes
  pub auth_token : Bytes
  pub acc_root : Bytes
  pub sig_root : Bytes
  pub acc_proof : Bytes

-- `ctxParams1`: the one alternative with its `matchingId`, or another one.
pub data CtxParams1 : Type 0 where
  common_authentication : Option Text → CtxParams1
  other : CtxParams1

pub record EuiccSigned1 : Type 0 where
  pub server_challenge : Bytes
  pub ctx_params1 : CtxParams1
  pub eligibility_data : Option EligibilityData

-- The certificates are still in their decoded form here.
pub record AuthenticateOk : Type 0 where
  pub euicc_signed1 : EuiccSigned1
  pub euicc_signature1 : Bytes
  pub euicc_certificate : Bytes
  pub eum_certificate : Bytes

pub data AuthenticateServerResponse : Type 0 where
  authenticate_response_ok : AuthenticateOk → AuthenticateServerResponse
  authenticate_response_error : AuthenticateServerResponse

pub record EuiccSigned2 : Type 0 where
  pub transaction_id : Bytes
  pub euicc_otpk : Bytes

pub data PrepareDownloadResponse : Type 0 where
  download_response_ok : EuiccSigned2 → Bytes → PrepareDownloadResponse
  download_response_error : PrepareDownloadResponse

pub record CancelSessionSigned : Type 0 where
  pub transaction_id : Bytes
  pub smdp_oid : String

pub data CancelSessionResponse : Type 0 where
  cancel_session_ok : CancelSessionSigned → Bytes → CancelSessionResponse
  cancel_session_error : CancelSessionResponse

pub record OtherSignedNotification : Type 0 where
  pub euicc_certificate : Bytes
  pub eum_certificate : Bytes
  pub tbs : Bytes
  pub signature : Bytes
  pub operation : Bytes × ℕ

-- `profileInstallationResult` by its transaction identifier, its data and its signature; the
-- metadata `tbs` and the bit string of the operation in it.
pub data PendingNotification : Type 0 where
  profile_installation_result : Bytes → Bytes → Bytes → PendingNotification
  other_signed_notification : OtherSignedNotification → PendingNotification
  unsigned_notification : PendingNotification

-- What the server takes from other packages: SHA-256, ECDSA and certificate parsing
-- (`cryptography`), base 64, the ASN.1 codec (asn1tools), `b2h`, `h2b` and `swap_nibbles`
-- (pyosmocom), the file system, and the ICCID in a profile (pySim/esim/saip). The subject
-- alternative name is its `OtherName` types and its `RegisteredID` values.
pub record Backend : Type 0 where
  pub sha256 : Bytes → Bytes
  pub public_key : Certificate → Bytes
  pub key_verifies : Bytes → Bytes → Bytes → Bool
  pub encode_dss : ℕ → ℕ → Bytes
  pub signed_by : Certificate → Certificate → Bool
  pub load_certificate : Bytes → Option Certificate
  pub b64decode : Text → Outcome Bytes
  pub b2h : Bytes → Text
  pub swap_nibbles : Text → Text
  pub to_text : String → Text
  pub mno_public_key : ℕ → Bytes
  pub dp_auth_sign : Bytes → Bytes
  pub realpath : Text → Text
  pub readable : Text → Bool
  pub profile_iccid : Text → Outcome Bytes
  pub encode_certificate : Bytes → Outcome Bytes
  pub encode_server_signed1 : ServerSigned1 → Outcome Bytes
  pub encode_smdp_signed2 : Bytes → Outcome Bytes
  pub encode_cancel_session : CancelSessionSigned → Outcome Bytes
  pub encode_installation_result : Bytes → Outcome Bytes
  pub encode_notification_metadata : Bytes → Outcome Bytes
  pub object_identifier : String → Outcome String
  pub subject_alt_name : Certificate → Option (List String × List String)
  pub decode_euicc_info1 : Bytes → Outcome EuiccInfo1
  pub decode_authenticate_server : Bytes → Outcome AuthenticateServerResponse
  pub decode_prepare_download : Bytes → Outcome PrepareDownloadResponse
  pub decode_cancel_session : Bytes → Outcome CancelSessionResponse
  pub decode_pending_notification : Bytes → Outcome PendingNotification
  pub public_point : PrivateKey → Bytes
  pub read_profile : Text → Outcome Bytes
  pub ciphers : Ciphers
  pub tlv : Tlv
  pub codec : Codec

-- `SmDppHttpServer.__init__`
pub record Config : Type 0 where
  pub server_hostname : Text
  pub zk_mode : Bool
  pub upp_dir : Text
  pub ci_certs : List Certificate
  pub dp_auth : Certificate
  pub dp_pb : Certificate

-- What differs from request to request: the clock, fresh identifiers, random bytes, and the one-time
-- key that is generated.
pub record Moment : Type 0 where
  pub now : ℕ
  pub uuid : Text
  pub random : Bytes
  pub one_time_key : PrivateKey
