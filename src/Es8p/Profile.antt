-- ===== src/Es8p/Profile.antt =====
-- What `decode` of pySim/esim/es8p.py relies on, and the last part of a package: the profile, under
-- the keys of the session or under keys of its own.
use zk_e_sim_smdp.Common.{
  ℕ, ◌+◌, ◌^◌, ◌≤◌, ◌<◌, ◌≡◌, refl, List, ◌++◌, Option, none, some, length, length-append, join,
  arith, ap, sym, ◌∙◌,
}
use zk_e_sim_smdp.Common.Outcome.{Outcome, ok, bind_ok}
use zk_e_sim_smdp.Common.Bytes.{Bytes}
use zk_e_sim_smdp.Tlv.{Tlv, TlvLaws, encode as encode_tlv}
use zk_e_sim_smdp.Bsp.{
  Ciphers, BspInstance, bsp_key_derivation, from_kdf, new_instance, encrypt_and_mac,
  demac_and_decrypt,
}
use zk_e_sim_smdp.Bsp.Frame.{CipherLaws}
use zk_e_sim_smdp.Bsp.Sync.{demac-encrypt}
use zk_e_sim_smdp.Bsp.Sizes.{max_payload_size-new_instance}
use zk_e_sim_smdp.Bsp.Tlvs.{encrypt_and_mac-IsTlv}
use zk_e_sim_smdp.Session.{ProfileMetadata}
use zk_e_sim_smdp.Es8p.{
  Codec, StoreMetadataRequest, InitialiseSecureChannel, ReplaceSessionKeys, ProtectedProfilePackage,
  BoundProfilePackage, from_upp_package, from_ppp_package, gen_replace_session_keys, from_upp,
  encode_seq, encode_profile,
}
use zk_e_sim_smdp.Es8p.Decode.{split_profile, replace_keys}
use zk_e_sim_smdp.Es8p.Split.{split_profile_one, split_profile_two}

-- What the code relies on of the ASN.1 codec: what it encodes it decodes, and the request for a
-- channel is a TLV of the tag that SGP.22 gives it.
pub record CodecLaws (tlv : Tlv) (codec : Codec) : Type 0 where
  pub secure_channel_tag :
      (iscr : InitialiseSecureChannel) (bin : Bytes)
      → codec.encode_secure_channel iscr ≡ ok bin
      → (value : Bytes) × (bin ≡ encode_tlv tlv 0xbf23 value)
  pub decode-encode_secure_channel :
      (iscr : InitialiseSecureChannel) (bin : Bytes)
      → codec.encode_secure_channel iscr ≡ ok bin
      → codec.decode_secure_channel bin ≡ ok iscr
  pub decode-encode_session_keys :
      (rsk : ReplaceSessionKeys) (bin : Bytes)
      → codec.encode_session_keys rsk ≡ ok bin
      → codec.decode_session_keys bin ≡ ok rsk
  pub decode_configure_isdp_lem : codec.decode_configure_isdp codec.configure_isdp ≡ ok tt
  pub decode-encode_metadata :
      (smr : StoreMetadataRequest) (bin : Bytes)
      → codec.encode_metadata smr ≡ ok bin
      → codec.decode_metadata bin ≡ ok tt

-- An outcome beside the state that comes with it.
pub paired : {A S : Type 0} (x : Outcome A × S) {a : A} → x.0 ≡ ok a → x ≡ (ok a, x.1)
paired (r, s) e = rw e

module _ (ciphers : Ciphers) (tlv : Tlv) (codec : Codec) where
  -- The profile that a package is made of, protected by some keys where it is protected.
  unfoldable pub Carries : BoundProfilePackage → Bytes → Type 0
  Carries (from_upp_package metadata held) upp = held ≡ upp
  Carries (from_ppp_package ppp) upp =
      (metadata : Option ProfileMetadata) × (s_enc : Bytes) × (s_mac : Bytes) × (mcv : Bytes)
      × (bsp : BspInstance) × (from_upp ciphers tlv codec metadata upp
            (new_instance ciphers tlv s_enc s_mac mcv)
          ≡ ok (ppp, bsp))

  from_upp_returned :
      (metadata : Option ProfileMetadata) (upp : Bytes) (b b' : BspInstance)
      (ppp : ProtectedProfilePackage)
      → from_upp ciphers tlv codec metadata upp b ≡ ok (ppp, b')
      → (encrypt_and_mac ciphers tlv 0x86 upp b ≡ (ok ppp.encoded, b'))
        × (ppp.ppk_enc ≡ b.c_algo.s_enc)
        × (ppp.ppk_mac ≡ b.m_algo.s_mac)
        × (ppp.initial_mcv ≡ b.m_algo.mac_chain)
  unfolding from_upp
  from_upp_returned metadata upp b b' ppp h =
      bind_ok (encrypt_and_mac ciphers tlv 0x86 upp b).0 _ h λ encoded e k.
        let whole = paired (encrypt_and_mac ciphers tlv 0x86 upp b) e in (cc, cc, cc, cc)

  module _ (laws : CipherLaws ciphers) (tlv_laws : TlvLaws tlv)
      (codec_laws : CodecLaws tlv codec) where
    pub kdf_size :
        (secret : Bytes) (key_type key_len : ℕ) (host_id eid : Bytes) (b : BspInstance)
        → from_kdf ciphers tlv secret key_type key_len host_id eid ≡ ok b
        → b.max_payload_size ≡ 1008
    unfolding from_kdf
    kdf_size secret key_type key_len host_id eid b h =
        bind_ok (bsp_key_derivation ciphers tlv secret key_type key_len host_id eid 16) _ h
          λ keys e k.
            let same : new_instance ciphers tlv keys.s_enc keys.s_mac keys.initial_mcv ≡ b = cc in
            rw (← same) (
              max_payload_size-new_instance ciphers tlv laws tlv_laws keys.s_enc keys.s_mac
                keys.initial_mcv)

    pub length-encode_seq :
        (tag : ℕ) (cs : List Bytes)
        → length (join cs) ≤ length (encode_seq ciphers tlv codec tag cs)
    unfolding encode_seq
    length-encode_seq tag cs =
        let len = tlv.encode_len (length (join cs)) in
        omega
          (arith, length-append (tlv.encode_tag tag) (len ++ join cs), length-append len (join cs))

    -- What follows the metadata is opened from the state in which it was made.
    pub profile_opens :
        (bpp : BoundProfilePackage) (upp rest : Bytes) (b : BspInstance)
        → Carries bpp upp
        → b.max_payload_size ≡ 1008
        → length rest < 2 ^ 32
        → encode_profile ciphers tlv codec bpp b ≡ ok rest
        → (second : Option (List Bytes)) × (s86 : List Bytes) × (rsk : Option ReplaceSessionKeys)
          × (b₃ : BspInstance) × (split_profile ciphers tlv codec rest ≡ ok (second, s86))
          × (replace_keys ciphers tlv codec second b ≡ ok (rsk, b₃))
          × ((demac_and_decrypt ciphers tlv s86 b₃).0 ≡ ok upp)
    unfolding Carries encode_profile
    profile_opens (from_upp_package metadata held) upp rest b same size small h =
        bind_ok (from_upp ciphers tlv codec metadata held b) _ h λ (ppp, b') e k.
          let (sealed, _, _, _) = from_upp_returned metadata held b b' ppp e in
          let limit : b.max_payload_size < 2 ^ 31 = omega arith in
          let (tlvs, _) =
            encrypt_and_mac-IsTlv ciphers tlv laws tlv_laws 0x86 held ppp.encoded b b'
              (omega arith, omega arith) limit sealed in
          let out : encode_seq ciphers tlv codec 0xa3 ppp.encoded ≡ rest = cc in
          let room : length (join ppp.encoded) < 2 ^ 32 =
            omega (arith, length-encode_seq 0xa3 ppp.encoded, ap length out) in
          let opened =
            demac-encrypt ciphers tlv laws tlv_laws 0x86 held ppp.encoded b b'
              (omega arith, omega arith) (omega arith) limit sealed in
          (
            none,
            ppp.encoded,
            none,
            b,
            rw (← out) (split_profile_one ciphers tlv codec tlv_laws ppp.encoded tlvs room),
            unfold replace_keys in refl,
            rw (opened, same),
          )
    profile_opens (from_ppp_package ppp) upp rest b (metadata, k₁, k₂, k₃, b', made) size small h =
        let own : BspInstance = new_instance ciphers tlv k₁ k₂ k₃ in
        let own_size = max_payload_size-new_instance ciphers tlv laws tlv_laws k₁ k₂ k₃ in
        let (sealed, enc, mac, mcv) = from_upp_returned metadata upp own b' ppp made in
        let (tlvs, _) =
          encrypt_and_mac-IsTlv ciphers tlv laws tlv_laws 0x86 upp ppp.encoded own b'
            (omega arith, omega arith) (omega arith) sealed in
        let opened =
          demac-encrypt ciphers tlv laws tlv_laws 0x86 upp ppp.encoded own b'
            (omega arith, omega arith) (omega arith) (omega arith) sealed in
        let keys : ReplaceSessionKeys = record {
          ppk_enc = ppp.ppk_enc;
          ppk_cmac = ppp.ppk_mac;
          initial_mac_chaining_value = ppp.initial_mcv;
        } in
        let again : new_instance ciphers tlv ppp.ppk_enc ppp.ppk_mac ppp.initial_mcv ≡ own =
          unfold new_instance in cc in
        bind_ok (gen_replace_session_keys ciphers tlv codec ppp.ppk_enc ppp.ppk_mac ppp.initial_mcv)
          _ h
          λ rsk_bin e k. bind_ok (encrypt_and_mac ciphers tlv 0x87 rsk_bin b).0 _ k λ second e₂ k₂.
            let sent = paired (encrypt_and_mac ciphers tlv 0x87 rsk_bin b) e₂ in
            let after : BspInstance = (encrypt_and_mac ciphers tlv 0x87 rsk_bin b).1 in
            let (second_tlvs, _) =
              encrypt_and_mac-IsTlv ciphers tlv laws tlv_laws 0x87 rsk_bin second b after
                (omega arith, omega arith) (omega arith) sent in
            let received =
              demac-encrypt ciphers tlv laws tlv_laws 0x87 rsk_bin second b after
                (omega arith, omega arith) (omega arith) (omega arith) sent in
            let keys_back : codec.decode_session_keys rsk_bin ≡ ok keys =
              codec_laws.decode-encode_session_keys keys rsk_bin
                (unfold gen_replace_session_keys in e) in
            let s87 : Bytes = encode_seq ciphers tlv codec 0xa2 second in
            let s86 : Bytes = encode_seq ciphers tlv codec 0xa3 ppp.encoded in
            let out : s87 ++ s86 ≡ rest = cc in
            let total : length s87 + length s86 ≡ length rest =
              sym (length-append s87 s86) ∙ ap length out in
            let room : length (join second) < 2 ^ 32 =
              omega (arith, length-encode_seq 0xa2 second) in
            let room' : length (join ppp.encoded) < 2 ^ 32 =
              omega (arith, length-encode_seq 0xa3 ppp.encoded) in
            (
              some second,
              ppp.encoded,
              some keys,
              own,
              rw (← out) (
                  split_profile_two ciphers tlv codec tlv_laws second ppp.encoded second_tlvs tlvs
                    room room'),
              unfold replace_keys in rw (received, keys_back, again) refl,
              rw opened refl,
            )
