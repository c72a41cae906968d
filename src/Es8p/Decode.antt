-- ===== src/Es8p/Decode.antt =====
-- `BoundProfilePackage.decode` of pySim/esim/es8p.py, which is what happens in an eUICC.
use zk_e_sim_smdp.Common.{
  ℕ, zero, suc, Option, none, some, List, [], ◌∷◌, length, ◌==◌, if◌then◌else◌,
}
use zk_e_sim_smdp.Common.Outcome.{Outcome, ok, err, value_error, guard, ◌>>=◌, ◌>>◌}
use zk_e_sim_smdp.Common.Bytes.{Bytes, from_bytes_be}
use zk_e_sim_smdp.Common.Hex.{Text}
use zk_e_sim_smdp.Tlv.{Tlv}
use zk_e_sim_smdp.Bsp.{Ciphers, BspInstance, from_kdf, new_instance, demac_and_decrypt, demac_only}
use zk_e_sim_smdp.Session.{PrivateKey}
use zk_e_sim_smdp.Es8p.{Codec, ReplaceSessionKeys}

-- What `decode` has set when it returns.
pub record Decoded : Type 0 where
  pub shared_secret : Bytes
  pub encoded_configure_isdp : Bytes
  pub encoded_store_metadata : Bytes
  pub replace_session_keys : Option ReplaceSessionKeys
  pub upp : Bytes

-- The four sequences of a package; the replaced keys may be missing.
pub record Sequences : Type 0 where
  pub first_seq_of_87 : List Bytes
  pub seq_of_88 : List Bytes
  pub second_seq_of_87 : Option (List Bytes)
  pub seq_of_86 : List Bytes

module _ (ciphers : Ciphers) (tlv : Tlv) (codec : Codec) where
  open tlv use {parse_one_rawtag, return_one_rawtlv}

  -- `split_bertlv_sequence`, on fuel
  unfoldable pub split_bertlv_sequence : ℕ → Bytes → Outcome (List Bytes)
  split_bertlv_sequence fuel [] = ok []
  split_bertlv_sequence zero (b ∷ bs) = err value_error
  split_bertlv_sequence (suc fuel) (b ∷ bs) =
      return_one_rawtlv (b ∷ bs) >>= λ (tag, one, remainder).
      split_bertlv_sequence fuel remainder >>= λ ret. ok (one ∷ ret)

  abbrev pub split : Bytes → Outcome (List Bytes)
  split sequence = split_bertlv_sequence (length sequence) sequence

  -- The tags 0xa2 with 0xa3 behind it, or 0xa3 at once.
  unfoldable pub split_profile : Bytes → Outcome (Option (List Bytes) × List Bytes)
  split_profile remainder = do
    (tag, value, rest) ← parse_one_rawtag remainder
    if tag == 0xa2
        then (split value >>= λ second_seq. parse_one_rawtag rest >>= λ (tag2, value2, rest2).
            guard (tag2 == 0xa3) value_error
            >> (split value2 >>= λ seq_of_86. ok (some second_seq, seq_of_86)))
        else (guard (tag == 0xa3) value_error
            >> (split value >>= λ seq_of_86. ok (none, seq_of_86)))

  -- The sequences behind the request to initialise the channel.
  unfoldable pub split_package : Bytes → Outcome Sequences
  split_package remainder = do
    (tag, first_value, remainder₁) ← parse_one_rawtag remainder
    guard (tag == 0xa0) value_error
    first_seq ← split first_value
    (tag₁, metadata_value, remainder₂) ← parse_one_rawtag remainder₁
    guard (tag₁ == 0xa1) value_error
    seq_of_88 ← split metadata_value
    (second_seq, seq_of_86) ← split_profile remainder₂
    ok (record {
      first_seq_of_87 = first_seq;
      seq_of_88 = seq_of_88;
      second_seq_of_87 = second_seq;
      seq_of_86 = seq_of_86;
    })

  -- The keys for the profile: those of the channel, or those that replace them.
  unfoldable pub replace_keys :
      Option (List Bytes) → BspInstance → Outcome (Option ReplaceSessionKeys × BspInstance)
  replace_keys none bsp = ok (none, bsp)
  replace_keys (some second_seq) bsp = do
    rsk_bin ← (demac_and_decrypt ciphers tlv second_seq bsp).0
    rsk ← codec.decode_session_keys rsk_bin
    ok (some rsk, new_instance ciphers tlv rsk.ppk_enc rsk.ppk_cmac rsk.initial_mac_chaining_value)

  unfoldable pub decode : PrivateKey → Text → Bytes → Outcome Decoded
  decode euicc_ot eid bpp_bin = do
    (tag, v, excess) ← parse_one_rawtag bpp_bin
    guard (length excess == 0) value_error
    guard (tag == 0xbf36) value_error
    (tag₁, iscr_bin, remainder) ← return_one_rawtlv v
    iscr ← codec.decode_secure_channel iscr_bin
    seqs ← split_package remainder
    shared_secret ← codec.exchange euicc_ot iscr.smdp_otpk
    let crt = iscr.control_ref_template
    eid_bin ← codec.h2b eid
    bsp ←
        from_kdf ciphers tlv shared_secret (from_bytes_be 0 crt.key_type)
          (from_bytes_be 0 crt.key_len) crt.host_id eid_bin
    let (configure, bsp₁) = demac_and_decrypt ciphers tlv seqs.first_seq_of_87 bsp
    encoded_configure ← configure
    codec.decode_configure_isdp encoded_configure
    let (metadata, bsp₂) = demac_only ciphers tlv seqs.seq_of_88 bsp₁
    encoded_metadata ← metadata
    codec.decode_metadata encoded_metadata
    (rsk, bsp₃) ← replace_keys seqs.second_seq_of_87 bsp₂
    upp ← (demac_and_decrypt ciphers tlv seqs.seq_of_86 bsp₃).0
    ok (record {
      shared_secret = shared_secret;
      encoded_configure_isdp = encoded_configure;
      encoded_store_metadata = encoded_metadata;
      replace_session_keys = rsk;
      upp = upp;
    })
