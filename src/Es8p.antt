-- ===== src/Es8p.antt =====
-- Profile packages of ES8+: pySim/esim/es8p.py. The ASN.1 codec (asn1tools) and the agreement of
-- keys (`cryptography`) are parameters, as are the ciphers and the TLV functions below them; debug
-- output is left out.
use zk_e_sim_smdp.Common.{
  ℕ, zero, suc, Bool, true, false, not, Option, none, some, List, [], ◌∷◌, ◌++◌, length, join, leb,
  ◌==◌, if◌then◌else◌,
}
use zk_e_sim_smdp.Common.Outcome.{
  Outcome, ok, err, value_error, type_error, attribute_error, guard, expect, ◌>>=◌, ◌>>◌,
}
use zk_e_sim_smdp.Common.Action.{Action}
use zk_e_sim_smdp.Common.Bytes.{Bytes, beq, from_bytes_be}
use zk_e_sim_smdp.Common.Hex.{Text}
use zk_e_sim_smdp.Tlv.{Tlv}
use zk_e_sim_smdp.Bsp.{
  Ciphers, BspInstance, from_kdf, new_instance, encrypt_and_mac, mac_only, demac_and_decrypt,
  demac_only,
}
use zk_e_sim_smdp.Pmo.{new_pmo, to_bitstring}
use zk_e_sim_smdp.Session.{PrivateKey, ProfileMetadata, RspSessionState}
pub mod Icon
pub mod Decode
pub mod Split
pub mod Profile
pub mod RoundTrip
mod Runs

-- What `gen_store_metadata_request` gives to the ASN.1 encoder. Empty notifications are left out
-- there.
pub record StoreMetadataRequest : Type 0 where
  pub iccid : Bytes
  pub service_provider_name : Text
  pub profile_name : Text
  pub profile_class : ℕ
  pub icon : Option (Bytes × Option ℕ)
  pub notifications : List ((Bytes × ℕ) × Text)

pub record ControlRefTemplate : Type 0 where
  pub key_type : Bytes
  pub key_len : Bytes
  pub host_id : Bytes

pub record InitialiseSecureChannel : Type 0 where
  pub remote_op_id : ℕ
  pub transaction_id : Bytes
  pub control_ref_template : ControlRefTemplate
  pub smdp_otpk : Bytes
  pub smdp_sign : Bytes

pub record ReplaceSessionKeys : Type 0 where
  pub ppk_enc : Bytes
  pub ppk_cmac : Bytes
  pub initial_mac_chaining_value : Bytes

-- The codecs, the key agreement, and the signature of CERT.DPpb.
pub record Codec : Type 0 where
  pub h2b : Text → Outcome Bytes
  pub configure_isdp : Bytes
  pub encode_metadata : StoreMetadataRequest → Outcome Bytes
  pub encode_secure_channel : InitialiseSecureChannel → Outcome Bytes
  pub decode_secure_channel : Bytes → Outcome InitialiseSecureChannel
  pub encode_session_keys : ReplaceSessionKeys → Outcome Bytes
  pub decode_session_keys : Bytes → Outcome ReplaceSessionKeys
  pub decode_configure_isdp : Bytes → Outcome (Unit {0})
  pub decode_metadata : Bytes → Outcome (Unit {0})
  pub exchange : PrivateKey → Bytes → Outcome Bytes
  pub dp_pb_sign : Bytes → Bytes

-- "test", "provisioning" and "operational".
abbrev pub class_test : Text
class_test = 116 ∷ 101 ∷ 115 ∷ 116 ∷ []

abbrev pub class_provisioning : Text
class_provisioning = 112 ∷ 114 ∷ 111 ∷ 118 ∷ 105 ∷ 115 ∷ 105 ∷ 111 ∷ 110 ∷ 105 ∷ 110 ∷ 103 ∷ []

abbrev pub class_operational : Text
class_operational = 111 ∷ 112 ∷ 101 ∷ 114 ∷ 97 ∷ 116 ∷ 105 ∷ 111 ∷ 110 ∷ 97 ∷ 108 ∷ []

unfoldable pub class_number : Text → Outcome ℕ
class_number profile_class =
    if beq profile_class class_test
    then ok 0
    else if beq profile_class class_provisioning
    then ok 1
    else if beq profile_class class_operational
    then ok 2
    else err value_error

-- The loop over the notifications.
unfoldable pub notification_info : List (Text × Text) → Outcome (List ((Bytes × ℕ) × Text))
notification_info [] = ok []
notification_info ((event, address) ∷ ns) =
    new_pmo event >>= λ pmo. notification_info ns >>= λ nci. ok ((to_bitstring pmo, address) ∷ nci)

-- `if self.icon:` takes no empty icon
unfoldable pub icon_of : ProfileMetadata → Option (Bytes × Option ℕ)
icon_of m = elim m.icon [
  | none ↦ none
  | some [] ↦ none
  | some (b ∷ bs) ↦ some (b ∷ bs, m.icon_type)
]

unfoldable pub store_metadata_request : ProfileMetadata → Outcome StoreMetadataRequest
store_metadata_request m = do
  profile_class ← class_number m.profile_class
  nci ← notification_info m.notifications
  ok (record {
    iccid = m.iccid_bin;
    service_provider_name = m.spn;
    profile_name = m.profile_name;
    profile_class = profile_class;
    icon = icon_of m;
    notifications = nci;
  })

-- A protected profile package.
pub record ProtectedProfilePackage : Type 0 where
  pub metadata : Option ProfileMetadata
  pub ppk_enc : Bytes
  pub ppk_mac : Bytes
  pub initial_mcv : Bytes
  pub encoded : List Bytes

-- A bound profile package before it is encoded: around an unprotected package, which is its metadata
-- and its DER form, or around a protected one.
pub data BoundProfilePackage : Type 0 where
  from_upp_package : Option ProfileMetadata → Bytes → BoundProfilePackage
  from_ppp_package : ProtectedProfilePackage → BoundProfilePackage

-- `self.upp.metadata` or `self.ppp.metadata`
unfoldable pub metadata_of : BoundProfilePackage → Option ProfileMetadata
metadata_of (from_upp_package metadata upp) = metadata
metadata_of (from_ppp_package ppp) = ppp.metadata

module _ (ciphers : Ciphers) (tlv : Tlv) (codec : Codec) where
  open codec use {h2b, encode_metadata, encode_secure_channel, encode_session_keys, dp_pb_sign}

  -- `gen_store_metadata_request`
  unfoldable pub gen_store_metadata_request : ProfileMetadata → Outcome Bytes
  gen_store_metadata_request m = store_metadata_request m >>= encode_metadata

  unfoldable pub wrap_as_der_tlv : ℕ → Bytes → Bytes
  wrap_as_der_tlv tag val = tlv.encode_tag tag ++ (tlv.encode_len (length val) ++ val)

  unfoldable pub gen_init_sec_chan_signed_part : InitialiseSecureChannel → Bytes
  gen_init_sec_chan_signed_part iscsp =
      let crt = iscsp.control_ref_template in
      wrap_as_der_tlv 0x82 (iscsp.remote_op_id ∷ [])
      ++ (wrap_as_der_tlv 0x80 iscsp.transaction_id
          ++ (wrap_as_der_tlv 0xa6 (
                wrap_as_der_tlv 0x80 crt.key_type
                ++ (wrap_as_der_tlv 0x81 crt.key_len ++ wrap_as_der_tlv 0x84 crt.host_id))
              ++ wrap_as_der_tlv 0x5f49 iscsp.smdp_otpk))

  unfoldable pub gen_initialise_secure_channel :
      Text → Bytes → Bytes → Bytes → Outcome InitialiseSecureChannel
  gen_initialise_secure_channel transaction_id host_id smdp_otpk euicc_otpk = do
    id ← h2b transaction_id
    let init_scr : InitialiseSecureChannel = record {
      remote_op_id = 1;
      transaction_id = id;
      control_ref_template = record { key_type = 0x88 ∷ []; key_len = 16 ∷ []; host_id = host_id };
      smdp_otpk = smdp_otpk;
      smdp_sign = [];
    }
    let to_sign = gen_init_sec_chan_signed_part init_scr ++ wrap_as_der_tlv 0x5f49 euicc_otpk
    ok (record init_scr { smdp_sign = dp_pb_sign to_sign })

  unfoldable pub gen_replace_session_keys : Bytes → Bytes → Bytes → Outcome Bytes
  gen_replace_session_keys ppk_enc ppk_cmac initial_mcv =
      encode_session_keys (record {
        ppk_enc = ppk_enc;
        ppk_cmac = ppk_cmac;
        initial_mac_chaining_value = initial_mcv;
      })

  -- `ProtectedProfilePackage.from_upp`, with the instance behind it
  unfoldable pub from_upp :
      Option ProfileMetadata → Bytes → BspInstance → Outcome (ProtectedProfilePackage × BspInstance)
  from_upp metadata upp bsp =
      let (r, bsp') = encrypt_and_mac ciphers tlv 0x86 upp bsp in
      r >>= λ encoded. ok (
        record {
          metadata = metadata;
          ppk_enc = bsp.c_algo.s_enc;
          ppk_mac = bsp.m_algo.s_mac;
          initial_mcv = bsp.m_algo.mac_chain;
          encoded = encoded;
        },
        bsp',
      )

  unfoldable pub encode_seq : ℕ → List Bytes → Bytes
  encode_seq tag sequence =
      tlv.encode_tag tag ++ (tlv.encode_len (length (join sequence)) ++ join sequence)

  -- What follows the metadata: the replaced keys and the package under them, or the package under the
  -- session's keys.
  unfoldable pub encode_profile : BoundProfilePackage → BspInstance → Outcome Bytes
  encode_profile (from_ppp_package ppp) bsp = do
    rsk_bin ← gen_replace_session_keys ppp.ppk_enc ppp.ppk_mac ppp.initial_mcv
    second_seq ← (encrypt_and_mac ciphers tlv 0x87 rsk_bin bsp).0
    ok (encode_seq 0xa2 second_seq ++ encode_seq 0xa3 ppp.encoded)
  encode_profile (from_upp_package metadata upp) bsp = do
    (ppp, bsp') ← from_upp metadata upp bsp
    ok (encode_seq 0xa3 ppp.encoded)

  -- `BoundProfilePackage.encode`. A session without a secret, host or keys makes the functions below
  -- raise TypeError.
  unfoldable pub encode : RspSessionState → BoundProfilePackage → Outcome Bytes
  encode ss bpp = do
    shared_secret ← expect ss.shared_secret type_error
    host_id ← expect ss.host_id type_error
    eid ← expect ss.eid type_error
    eid_bin ← h2b eid
    bsp ← from_kdf ciphers tlv shared_secret 0x88 16 host_id eid_bin
    smdp_otpk ← expect ss.smdp_otpk type_error
    euicc_otpk ← expect ss.euicc_otpk type_error
    iscr ← gen_initialise_secure_channel ss.transaction_id host_id smdp_otpk euicc_otpk
    metadata ← expect (metadata_of bpp) attribute_error
    smr_bin ← gen_store_metadata_request metadata
    iscr_bin ← encode_secure_channel iscr
    let (first, bsp₁) = encrypt_and_mac ciphers tlv 0x87 codec.configure_isdp bsp
    first_seq ← first
    let (maced, bsp₂) = mac_only ciphers tlv 0x88 smr_bin bsp₁
    seq_of_88 ← maced
    rest ← encode_profile bpp bsp₂
    let bpp_seq = iscr_bin ++ (encode_seq 0xa0 first_seq ++ (encode_seq 0xa1 seq_of_88 ++ rest))
    ok (tlv.encode_tag 0xbf36 ++ (tlv.encode_len (length bpp_seq) ++ bpp_seq))
