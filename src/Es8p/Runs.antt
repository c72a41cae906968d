-- ===== src/Es8p/Runs.antt =====
-- Profile packages at a concrete input: a codec that writes each field behind its length, and a
-- server and a client that agree on one secret.
use zk_e_sim_smdp.Common.{
  replicate, ℕ, zero, suc, ◌^◌, ◌<◌, ◌≡◌, refl, List, [], ◌∷◌, ◌++◌, some, length, take, drop,
  take-append, drop-append, ltb, ltb→lt, Bool-cases, inl, inr, if◌then◌else◌, arith, ap, sym, ◌∙◌,
}
use mathlib.Core.List.{append-nil}
use zk_e_sim_smdp.Common.Outcome.{Outcome, ok, err, value_error, ◌>>=◌}
use zk_e_sim_smdp.Common.Action.{for_each}
use zk_e_sim_smdp.Common.Bytes.{Bytes, beq}
use zk_e_sim_smdp.Tlv.{encode as encode_tlv}
use zk_e_sim_smdp.Tlv.Ber.{ber, ber_laws, put_tag, put_len}
use zk_e_sim_smdp.Bsp.{
  BspInstance, new_instance, encrypt_and_mac, mac_only, segments, from_kdf, bsp_key_derivation,
  encrypt_and_mac_one, encrypt, get_icv, auth, mac_only_one, pad_to_multiple, get_padding,
}
use zk_e_sim_smdp.Bsp.Runs.{toy, toy_laws}
use zk_e_sim_smdp.Session.{PrivateKey, ProfileMetadata, RspSessionState, new_session, new_metadata}
use zk_e_sim_smdp.Es8p.{
  Codec, InitialiseSecureChannel, ReplaceSessionKeys, ProtectedProfilePackage, from_ppp_package,
  metadata_of, gen_store_metadata_request, store_metadata_request, class_number, notification_info,
  icon_of, class_operational, wrap_as_der_tlv, gen_init_sec_chan_signed_part,
  gen_initialise_secure_channel, gen_replace_session_keys, from_upp, encode_seq, encode_profile,
  encode,
}
use zk_e_sim_smdp.Es8p.Profile.{CodecLaws, Carries}
use zk_e_sim_smdp.Es8p.RoundTrip.{Opens, decode-encode}

-- Each field behind its length.
unfoldable pack : List Bytes → Bytes
pack [] = []
pack (x ∷ xs) = length x ∷ (x ++ pack xs)

unfoldable unpack : ℕ → Bytes → List Bytes
unpack zero bs = []
unpack (suc n) [] = []
unpack (suc n) (l ∷ bs) = take l bs ∷ unpack n (drop l bs)

unpack-pack : (xs : List Bytes) → unpack (length xs) (pack xs) ≡ xs
unfolding pack unpack
unpack-pack [] = refl
unpack-pack (x ∷ xs) =
    rw
      (
        take-append x (pack xs) (length x) refl,
        drop-append x (pack xs) (length x) refl,
        unpack-pack xs,
      )
      refl

abbrev channel_fields : InitialiseSecureChannel → List Bytes
channel_fields i =
    (i.remote_op_id ∷ [])
    ∷ i.transaction_id
    ∷ i.control_ref_template.key_type
    ∷ i.control_ref_template.key_len
    ∷ i.control_ref_template.host_id
    ∷ i.smdp_otpk
    ∷ i.smdp_sign
    ∷ []

abbrev channel_from : List Bytes → Outcome InitialiseSecureChannel
channel_from ((op ∷ []) ∷ id ∷ kt ∷ kl ∷ host ∷ otpk ∷ sign ∷ []) = ok (record {
  remote_op_id = op;
  transaction_id = id;
  control_ref_template = record { key_type = kt; key_len = kl; host_id = host };
  smdp_otpk = otpk;
  smdp_sign = sign;
})
channel_from _ = err value_error

abbrev keys_from : List Bytes → Outcome ReplaceSessionKeys
keys_from (enc ∷ cmac ∷ mcv ∷ []) =
    ok (record { ppk_enc = enc; ppk_cmac = cmac; initial_mac_chaining_value = mcv })
keys_from _ = err value_error

abbrev put_channel : Bytes → Outcome Bytes
put_channel v = if ltb (length v) (2 ^ 32) then ok (encode_tlv ber 0xbf23 v) else err value_error

abbrev plain_codec : Codec
plain_codec = record {
  h2b = λ t. ok t;
  configure_isdp = 0xbf ∷ 0x24 ∷ 0 ∷ [];
  encode_metadata = λ _. ok (0xbf ∷ 0x25 ∷ 0 ∷ []);
  encode_secure_channel = λ i. put_channel (pack (channel_fields i));
  decode_secure_channel =
      λ b. ber.parse_one_rawtag b >>= λ (tag, v, rest). channel_from (unpack 7 v);
  encode_session_keys = λ r. ok (pack (r.ppk_enc ∷ r.ppk_cmac ∷ r.initial_mac_chaining_value ∷ []));
  decode_session_keys = λ b. keys_from (unpack 3 b);
  decode_configure_isdp = λ _. ok tt;
  decode_metadata = λ _. ok tt;
  exchange = λ key point. ok (3 ∷ 1 ∷ 4 ∷ []);
  dp_pb_sign = λ _. 9 ∷ [];
}

put_channel_lem :
    (v bin : Bytes) → put_channel v ≡ ok bin → (bin ≡ encode_tlv ber 0xbf23 v) × (length v < 2 ^ 32)
put_channel_lem v bin h = elim (Bool-cases (ltb (length v) (2 ^ 32))) [
  | inl small ↦ let e = rw small at h in (cc, ltb→lt (length v) (2 ^ 32) small)
  | inr big ↦ absurd (cc (rw big at h))
]

plain_codec_laws : CodecLaws ber plain_codec
plain_codec_laws = record {
  secure_channel_tag =
      λ i bin h. (pack (channel_fields i), (put_channel_lem (pack (channel_fields i)) bin h).0);
  decode-encode_secure_channel = λ i bin h.
      let v : Bytes = pack (channel_fields i) in
      let (is, small) = put_channel_lem v bin h in
      let read : ber.parse_one_rawtag bin ≡ ok (0xbf23, v, []) =
        ap ber.parse_one_rawtag (is ∙ sym (append-nil (encode_tlv ber 0xbf23 v)))
        ∙ ber_laws.parse_one_rawtag_long 0xbf23 v [] (omega arith, omega arith, omega arith)
            small in
      rw (read, unpack-pack (channel_fields i)) refl;
  decode-encode_session_keys = λ r bin h.
      let fields : List Bytes = r.ppk_enc ∷ r.ppk_cmac ∷ r.initial_mac_chaining_value ∷ [] in
      let is : pack fields ≡ bin = cc in rw (← is, unpack-pack fields) refl;
  decode_configure_isdp_lem = refl;
  decode-encode_metadata = λ _ _ _. refl;
}

abbrev returned {ℓ} : {A : Type ℓ} → A → Outcome A → A
returned a (ok x) = x
returned a (err e) = a

-- A profile of three bytes under keys of its own.
abbrev upp : Bytes
upp = 7 ∷ 8 ∷ 9 ∷ []

abbrev own_keys : BspInstance
own_keys = new_instance toy ber (replicate 16 1) (replicate 16 2) (replicate 16 3)

abbrev metadata : ProfileMetadata
metadata = new_metadata [] [] [] class_operational

abbrev ppp : ProtectedProfilePackage
ppp = record {
  metadata = some metadata;
  ppk_enc = replicate 16 1;
  ppk_mac = replicate 16 2;
  initial_mcv = replicate 16 3;
  encoded = returned [] (encrypt_and_mac toy ber 0x86 upp own_keys).0;
}

abbrev session : RspSessionState
session = record (new_session (4 ∷ []) [] []) {
  eid = some (8 ∷ 9 ∷ []);
  host_id = some (6 ∷ []);
  smdp_otpk = some (5 ∷ []);
  euicc_otpk = some (2 ∷ []);
  shared_secret = some (3 ∷ 1 ∷ 4 ∷ []);
}

abbrev client_key : PrivateKey
client_key = record { private_value = 1; curve = 0 }

abbrev bound : Bytes
bound = returned [] (encode toy ber plain_codec session (from_ppp_package ppp))

protected_upp : Carries toy ber plain_codec (from_ppp_package ppp) upp
unfolding Carries from_upp encrypt_and_mac segments new_instance for_each put_len
    encrypt_and_mac_one encrypt get_icv auth
protected_upp = (
  some metadata,
  replicate 16 1,
  replicate 16 2,
  replicate 16 3,
  (encrypt_and_mac toy ber 0x86 upp own_keys).1,
  refl,
)

encoded :
    (encode toy ber plain_codec session (from_ppp_package ppp) ≡ ok bound) × (length bound < 2 ^ 32)
unfolding encode from_kdf bsp_key_derivation new_instance encrypt_and_mac segments for_each put_len
    put_tag metadata_of gen_initialise_secure_channel gen_init_sec_chan_signed_part wrap_as_der_tlv
    gen_store_metadata_request store_metadata_request class_number notification_info icon_of
    new_metadata encode_profile gen_replace_session_keys encode_seq mac_only new_session beq pack
    encrypt_and_mac_one encrypt get_icv auth mac_only_one pad_to_multiple get_padding
encoded = (refl, ltb→lt (length bound) (2 ^ 32) refl)

decode-encode_example :
    Opens toy ber plain_codec toy_laws ber_laws plain_codec_laws client_key
      (8 ∷ 9 ∷ [])
      (from_ppp_package ppp)
      bound
      upp
      (3 ∷ 1 ∷ 4 ∷ [])
unfolding new_session
decode-encode_example =
    decode-encode toy ber plain_codec toy_laws ber_laws plain_codec_laws session
      (from_ppp_package ppp) upp bound (3 ∷ 1 ∷ 4 ∷ []) (5 ∷ []) (8 ∷ 9 ∷ []) client_key
      protected_upp encoded.0 encoded.1 refl refl refl refl
