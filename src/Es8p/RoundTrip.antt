-- ===== src/Es8p/RoundTrip.antt =====
-- `decode` of pySim/esim/es8p.py in the eUICC opens what `encode` of the server has bound.
use zk_e_sim_smdp.Common.{
  ℕ, ◌+◌, ◌^◌, ◌<◌, ◌≡◌, refl, List, [], ◌∷◌, ◌++◌, some, length, length-append, arith, ap, sym,
  ◌∙◌,
}
use mathlib.Core.List.{append-nil}
use zk_e_sim_smdp.Common.Outcome.{
  Outcome, ok, err, type_error, attribute_error, bind_ok, bind_expect,
}
use zk_e_sim_smdp.Common.Bytes.{Bytes, from_bytes_be}
use zk_e_sim_smdp.Common.Hex.{Text}
use zk_e_sim_smdp.Tlv.{Tlv, TlvLaws, encode as encode_tlv}
use zk_e_sim_smdp.Bsp.{Ciphers, BspInstance, from_kdf, encrypt_and_mac, mac_only}
use zk_e_sim_smdp.Bsp.Frame.{CipherLaws}
use zk_e_sim_smdp.Bsp.Sync.{demac-encrypt, demac-mac}
use zk_e_sim_smdp.Bsp.Tlvs.{encrypt_and_mac-IsTlv, mac_only-IsTlv}
use zk_e_sim_smdp.Session.{PrivateKey, ProfileMetadata, RspSessionState}
use zk_e_sim_smdp.Es8p.{
  Codec, ControlRefTemplate, InitialiseSecureChannel, BoundProfilePackage, metadata_of,
  store_metadata_request, gen_store_metadata_request, gen_initialise_secure_channel, encode_seq,
  encode_profile, encode,
}
use zk_e_sim_smdp.Es8p.Decode.{Decoded, decode}
use zk_e_sim_smdp.Es8p.Split.{split_package_lem}
use zk_e_sim_smdp.Es8p.Profile.{
  CodecLaws, Carries, paired, kdf_size, length-encode_seq, profile_opens,
}

module _ (ciphers : Ciphers) (tlv : Tlv) (codec : Codec) where
  module _ (laws : CipherLaws ciphers) (tlv_laws : TlvLaws tlv)
      (codec_laws : CodecLaws tlv codec) where
    -- The request for a channel names the server's one-time key and the parameters of the key
    -- derivation.
    channel_names :
        (id : Text) (host_id smdp_otpk euicc_otpk : Bytes) (iscr : InitialiseSecureChannel)
        → gen_initialise_secure_channel ciphers tlv codec id host_id smdp_otpk euicc_otpk ≡ ok iscr
        → (iscr.smdp_otpk ≡ smdp_otpk)
          × (iscr.control_ref_template
              ≡ record { key_type = 0x88 ∷ []; key_len = 16 ∷ []; host_id = host_id })
    unfolding gen_initialise_secure_channel
    channel_names id host_id smdp_otpk euicc_otpk iscr h = bind_ok (codec.h2b id) _ h λ bin e k. (
      sym (ap (λ (x : Outcome InitialiseSecureChannel). otpk_of x) k),
      sym (ap (λ (x : Outcome InitialiseSecureChannel). crt_of x) k),
    )
      where
        otpk_of : Outcome InitialiseSecureChannel → Bytes
        otpk_of (ok i) = i.smdp_otpk
        otpk_of (err e) = smdp_otpk

        crt_of : Outcome InitialiseSecureChannel → ControlRefTemplate
        crt_of (ok i) = i.control_ref_template
        crt_of (err e) = record { key_type = []; key_len = []; host_id = [] }

    -- What the eUICC has behind `decode`.
    pub Opens : PrivateKey → Text → BoundProfilePackage → Bytes → Bytes → Bytes → Type 0
    Opens euicc_ot eid bpp bin upp secret =
        (d : Decoded) × (metadata : ProfileMetadata) × (decode ciphers tlv codec euicc_ot eid bin
          ≡ ok d)
        × (d.upp ≡ upp)
        × (d.shared_secret ≡ secret)
        × (d.encoded_configure_isdp ≡ codec.configure_isdp)
        × (metadata_of bpp ≡ some metadata)
        × (gen_store_metadata_request ciphers tlv codec metadata ≡ ok d.encoded_store_metadata)

    encoded_metadata_ok :
        (metadata : ProfileMetadata) (bin : Bytes)
        → gen_store_metadata_request ciphers tlv codec metadata ≡ ok bin
        → codec.decode_metadata bin ≡ ok tt
    unfolding gen_store_metadata_request
    encoded_metadata_ok metadata bin h =
        bind_ok (store_metadata_request metadata) _ h
          λ smr e k. codec_laws.decode-encode_metadata smr bin k

    -- Each part of a TLV is shorter than the TLV.
    parts_short :
        (tag : ℕ) (x y z w : Bytes)
        → length (encode_tlv tlv tag (x ++ (y ++ (z ++ w)))) < 2 ^ 32
        → (length (x ++ (y ++ (z ++ w))) < 2 ^ 32)
          × (length x < 2 ^ 32)
          × (length y < 2 ^ 32)
          × (length z < 2 ^ 32)
          × (length w < 2 ^ 32)
    parts_short tag x y z w h =
        let v : Bytes = x ++ (y ++ (z ++ w)) in
        let len : Bytes = tlv.encode_len (length v) in
        let whole : length (encode_tlv tlv tag v)
            ≡ length (tlv.encode_tag tag) + length (len ++ v) =
          length-append (tlv.encode_tag tag) (len ++ v) in
        let behind = length-append len v in
        let e₁ = length-append x (y ++ (z ++ w)) in
        let e₂ = length-append y (z ++ w) in
        let e₃ = length-append z w in
        (omega arith, omega arith, omega arith, omega arith, omega arith)

    value_short : (tag : ℕ) (v : Bytes) → length (encode_tlv tlv tag v) < 2 ^ 32 → length v < 2 ^ 32
    value_short tag v h =
        let len : Bytes = tlv.encode_len (length v) in
        omega (arith, length-append (tlv.encode_tag tag) (len ++ v), length-append len v, h)

    -- The body of a package is opened, from the request for a channel on.
    body-Opens :
        (bpp : BoundProfilePackage) (upp secret host_id eid_bin iscr_bin rest : Bytes) (eid : Text)
        (smr_bin : Bytes) (metadata : ProfileMetadata) (euicc_ot : PrivateKey)
        (iscr : InitialiseSecureChannel) (b b₁ b₂ : BspInstance) (s87 s88 : List Bytes)
        → Carries ciphers tlv codec bpp upp
        → codec.h2b eid ≡ ok eid_bin
        → from_kdf ciphers tlv secret 0x88 16 host_id eid_bin ≡ ok b
        → iscr.control_ref_template
          ≡ record { key_type = 0x88 ∷ []; key_len = 16 ∷ []; host_id = host_id }
        → codec.exchange euicc_ot iscr.smdp_otpk ≡ ok secret
        → codec.encode_secure_channel iscr ≡ ok iscr_bin
        → metadata_of bpp ≡ some metadata
        → gen_store_metadata_request ciphers tlv codec metadata ≡ ok smr_bin
        → encrypt_and_mac ciphers tlv 0x87 codec.configure_isdp b ≡ (ok s87, b₁)
        → mac_only ciphers tlv 0x88 smr_bin b₁ ≡ (ok s88, b₂)
        → encode_profile ciphers tlv codec bpp b₂ ≡ ok rest
        → (bin : Bytes)
        → bin
          ≡ encode_tlv tlv 0xbf36 (
              iscr_bin
              ++ (encode_seq ciphers tlv codec 0xa0 s87
                  ++ (encode_seq ciphers tlv codec 0xa1 s88 ++ rest)))
        → length bin < 2 ^ 32
        → Opens euicc_ot eid bpp bin upp secret
    unfolding Opens decode from_bytes_be
    body-Opens bpp upp secret host_id eid_bin iscr_bin rest eid smr_bin metadata euicc_ot iscr b b₁
          b₂ s87 s88 carries eid_ok kdf crt agreed iscr_ok has smr_ok first maced profile bin is
          small =
        let a0 : Bytes = encode_seq ciphers tlv codec 0xa0 s87 in
        let a1 : Bytes = encode_seq ciphers tlv codec 0xa1 s88 in
        let v : Bytes = iscr_bin ++ (a0 ++ (a1 ++ rest)) in
        let (short_v, short_iscr, short_87, short_88, short_rest) =
          parts_short 0xbf36 iscr_bin a0 a1 rest (rw is at small) in
        let size : b.max_payload_size ≡ 1008 =
          kdf_size ciphers tlv codec laws tlv_laws codec_laws secret 0x88 16 host_id eid_bin b
            kdf in
        let (tlvs₁, same₁) =
          encrypt_and_mac-IsTlv ciphers tlv laws tlv_laws 0x87 codec.configure_isdp s87 b b₁
            (omega arith, omega arith) (omega arith) first in
        let (tlvs₂, same₂) =
          mac_only-IsTlv ciphers tlv laws tlv_laws 0x88 smr_bin s88 b₁ b₂ (omega arith, omega arith)
            (omega arith) maced in
        let opened₁ =
          demac-encrypt ciphers tlv laws tlv_laws 0x87 codec.configure_isdp s87 b b₁
            (omega arith, omega arith) (omega arith) (omega arith) first in
        let opened₂ =
          demac-mac ciphers tlv laws tlv_laws 0x88 smr_bin s88 b₁ b₂ (omega arith, omega arith)
            (omega arith) (omega arith) maced in
        let (second, s86, rsk, b₃, divided, replaced, opened₃) =
          profile_opens ciphers tlv codec laws tlv_laws codec_laws bpp upp rest b₂ carries
            (same₂ ∙ same₁ ∙ size) short_rest profile in
        let outer : tlv.parse_one_rawtag bin ≡ ok (0xbf36, v, []) =
          ap tlv.parse_one_rawtag (is ∙ sym (append-nil (encode_tlv tlv 0xbf36 v)))
          ∙ tlv_laws.parse_one_rawtag_long 0xbf36 v [] (omega arith, omega arith, omega arith)
              short_v in
        let (value, tagged) = codec_laws.secure_channel_tag iscr iscr_bin iscr_ok in
        let short_value : length value < 2 ^ 32 =
          value_short 0xbf23 value (rw tagged at short_iscr) in
        let inner : tlv.return_one_rawtlv v ≡ ok (0xbf23, iscr_bin, a0 ++ (a1 ++ rest)) =
          rw tagged (
            tlv_laws.return_one_rawtlv_long 0xbf23 value (a0 ++ (a1 ++ rest))
              (omega arith, omega arith, omega arith) short_value) in
        let channel = codec_laws.decode-encode_secure_channel iscr iscr_bin iscr_ok in
        let metadata_ok : codec.decode_metadata smr_bin ≡ ok tt =
          encoded_metadata_ok metadata smr_bin smr_ok in
        let seqs =
          split_package_lem ciphers tlv codec tlv_laws s87 s88 rest second s86 tlvs₁ tlvs₂
            (omega (arith, length-encode_seq ciphers tlv codec laws tlv_laws codec_laws 0xa0 s87))
            (omega (arith, length-encode_seq ciphers tlv codec laws tlv_laws codec_laws 0xa1 s88))
            divided in
        (
          record {
            shared_secret = secret;
            encoded_configure_isdp = codec.configure_isdp;
            encoded_store_metadata = smr_bin;
            replace_session_keys = rsk;
            upp = upp;
          },
          metadata,
          rw (outer, inner, channel, seqs, agreed, eid_ok, crt, kdf)
              (rw (opened₁, codec_laws.decode_configure_isdp_lem, opened₂, metadata_ok)
                (rw (replaced, opened₃) refl)),
          refl,
          refl,
          refl,
          has,
          smr_ok,
        )

    -- What the server's `encode` makes of a profile, protected under keys of its own or not, the
    -- eUICC's `decode` opens: it finds the profile, the secret of both, and the requests that were
    -- encoded, where the eUICC's key agrees on the session's secret and the package is shorter than
    -- 2 ^ 32 bytes.
    pub decode-encode :
        (ss : RspSessionState) (bpp : BoundProfilePackage) (upp bin secret smdp_otpk : Bytes)
        (eid : Text) (euicc_ot : PrivateKey)
        → Carries ciphers tlv codec bpp upp
        → encode ciphers tlv codec ss bpp ≡ ok bin
        → length bin < 2 ^ 32
        → ss.eid ≡ some eid
        → ss.shared_secret ≡ some secret
        → ss.smdp_otpk ≡ some smdp_otpk
        → codec.exchange euicc_ot smdp_otpk ≡ ok secret
        → Opens euicc_ot eid bpp bin upp secret
    unfolding encode
    decode-encode ss bpp upp bin secret smdp_otpk eid euicc_ot carries h small has_eid has_secret
          has_otpk agreed =
        bind_expect ss.host_id type_error _ (rw (has_secret, has_eid, has_otpk) at h)
          λ host_id e₁ h₁. bind_ok (codec.h2b eid) _ h₁ λ eid_bin e₂ h₂.
            bind_ok (from_kdf ciphers tlv secret 0x88 16 host_id eid_bin) _ h₂ λ b e₃ h₃.
              bind_expect ss.euicc_otpk type_error _ h₃ λ euicc_otpk e₄ h₄.
                bind_ok
                  (gen_initialise_secure_channel ciphers tlv codec ss.transaction_id host_id
                    smdp_otpk euicc_otpk)
                  _ h₄
                  λ iscr e₅ h₅. bind_expect (metadata_of bpp) attribute_error _ h₅ λ m e₆ h₆.
                    bind_ok (gen_store_metadata_request ciphers tlv codec m) _ h₆ λ smr e₇ h₇.
                      bind_ok (codec.encode_secure_channel iscr) _ h₇ λ iscr_bin e₈ h₈.
                        let first = encrypt_and_mac ciphers tlv 0x87 codec.configure_isdp b in
                        bind_ok first.0 _ h₈ λ s87 e₉ h₉.
                          let maced = mac_only ciphers tlv 0x88 smr first.1 in
                          bind_ok maced.0 _ h₉ λ s88 f₁ k₁.
                            bind_ok (encode_profile ciphers tlv codec bpp maced.1) _ k₁
                              λ rest f₂ k₂.
                                let (otpk, crt) =
                                  channel_names ss.transaction_id host_id smdp_otpk euicc_otpk iscr
                                    e₅ in
                                body-Opens bpp upp secret host_id eid_bin iscr_bin rest eid smr m
                                  euicc_ot iscr b first.1 maced.1 s87 s88 carries e₂ e₃ crt
                                  (rw otpk agreed) e₈ e₆ e₇ (paired first e₉) (paired maced f₁) f₂
                                  bin (sym (unwrap k₂)) small
      where
        unwrap : {x y : Bytes} → ok x ≡ ok y → x ≡ y
        unwrap e = cc
