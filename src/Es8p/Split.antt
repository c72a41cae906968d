-- ===== src/Es8p/Split.antt =====
-- `decode` of pySim/esim/es8p.py takes a package apart into the sequences that `encode` put together.
use zk_e_sim_smdp.Common.{
  ℕ, zero, suc, ◌^◌, ◌≤◌, ◌<◌, ◌≡◌, refl, List, [], ◌∷◌, ◌++◌, Option, none, some, length,
  length-append, join, All, arith, ap, sym, ◌∙◌,
}
use mathlib.Core.List.{append-nil}
use native.Mathlib.Nat.{le_refl}
use zk_e_sim_smdp.Common.Outcome.{ok}
use zk_e_sim_smdp.Common.Bytes.{Bytes}
use zk_e_sim_smdp.Tlv.{Tlv, TlvLaws, IsShortTag}
use zk_e_sim_smdp.Bsp.{Ciphers}
use zk_e_sim_smdp.Bsp.Tlvs.{IsTlv}
use zk_e_sim_smdp.Es8p.{Codec, encode_seq}
use zk_e_sim_smdp.Es8p.Decode.{split_bertlv_sequence, split, split_profile, split_package}

module _ (ciphers : Ciphers) (tlv : Tlv) (codec : Codec) (tlv_laws : TlvLaws tlv) where
  -- A sequence of TLVs is split into them, and no fuel is missing.
  pub split-join :
      (fuel tag : ℕ) (cs : List Bytes)
      → IsShortTag tag
      → All (IsTlv tlv tag) cs
      → length (join cs) ≤ fuel
      → split_bertlv_sequence ciphers tlv codec fuel (join cs) ≡ ok cs
  unfolding split_bertlv_sequence IsTlv
  split-join fuel tag [] short h enough = refl
  split-join zero tag (c ∷ cs) short ((v, r, is, front, small), hs) enough =
      let size = length-append c (join cs) in
      let some_byte : length c ≡ suc (length r) = ap length front in absurd (omega arith)
  split-join (suc fuel) tag (c ∷ cs) short ((v, r, is, front, small), hs) enough =
      let size = length-append c (join cs) in
      let some_byte : length c ≡ suc (length r) = ap length front in
      let cut : tlv.return_one_rawtlv (c ++ join cs) ≡ ok (tag, c, join cs) =
        rw is (tlv_laws.return_one_rawtlv_short tag v (join cs) short small) in
      let cut' : tlv.return_one_rawtlv (tag ∷ (r ++ join cs)) ≡ ok (tag, c, join cs) =
        ap (λ x. tlv.return_one_rawtlv (x ++ join cs)) (sym front) ∙ cut in
      rw front (rw (cut', split-join fuel tag cs short hs (omega arith)) (rw front))

  parse_seq :
      (tag : ℕ) (cs : List Bytes) (rest : Bytes)
      → IsShortTag tag
      → length (join cs) < 2 ^ 32
      → tlv.parse_one_rawtag (encode_seq ciphers tlv codec tag cs ++ rest) ≡ ok (tag, join cs, rest)
  unfolding encode_seq
  parse_seq tag cs rest short small = tlv_laws.parse_one_rawtag_short tag (join cs) rest short small

  split_seq :
      (tag : ℕ) (cs : List Bytes)
      → IsShortTag tag
      → All (IsTlv tlv tag) cs
      → split ciphers tlv codec (join cs) ≡ ok cs
  split_seq tag cs short h = split-join (length (join cs)) tag cs short h (le_refl _)

  parse_last :
      (tag : ℕ) (cs : List Bytes)
      → IsShortTag tag
      → length (join cs) < 2 ^ 32
      → tlv.parse_one_rawtag (encode_seq ciphers tlv codec tag cs) ≡ ok (tag, join cs, [])
  parse_last tag cs short small =
      ap tlv.parse_one_rawtag (sym (append-nil (encode_seq ciphers tlv codec tag cs)))
      ∙ parse_seq tag cs [] short small

  -- A profile under the session's keys.
  pub split_profile_one :
      (s86 : List Bytes)
      → All (IsTlv tlv 0x86) s86
      → length (join s86) < 2 ^ 32
      → split_profile ciphers tlv codec (encode_seq ciphers tlv codec 0xa3 s86) ≡ ok (none, s86)
  unfolding split_profile
  split_profile_one s86 h small =
      rw
        (
          parse_last 0xa3 s86 (omega arith, omega arith) small,
          split_seq 0x86 s86 (omega arith, omega arith) h,
        )
        refl

  -- A profile under keys of its own.
  pub split_profile_two :
      (s87 s86 : List Bytes)
      → All (IsTlv tlv 0x87) s87
      → All (IsTlv tlv 0x86) s86
      → length (join s87) < 2 ^ 32
      → length (join s86) < 2 ^ 32
      → split_profile ciphers tlv codec
          (encode_seq ciphers tlv codec 0xa2 s87 ++ encode_seq ciphers tlv codec 0xa3 s86)
        ≡ ok (some s87, s86)
  unfolding split_profile
  split_profile_two s87 s86 h k small small' =
      rw
        (
          parse_seq 0xa2 s87 (encode_seq ciphers tlv codec 0xa3 s86) (omega arith, omega arith)
              small,
          split_seq 0x87 s87 (omega arith, omega arith) h,
          parse_last 0xa3 s86 (omega arith, omega arith) small',
          split_seq 0x86 s86 (omega arith, omega arith) k,
        )
        refl

  pub split_package_lem :
      (s87 s88 : List Bytes) (rest : Bytes) (second : Option (List Bytes)) (s86 : List Bytes)
      → All (IsTlv tlv 0x87) s87
      → All (IsTlv tlv 0x88) s88
      → length (join s87) < 2 ^ 32
      → length (join s88) < 2 ^ 32
      → split_profile ciphers tlv codec rest ≡ ok (second, s86)
      → split_package ciphers tlv codec
          (encode_seq ciphers tlv codec 0xa0 s87 ++ (encode_seq ciphers tlv codec 0xa1 s88 ++ rest))
        ≡ ok (record {
          first_seq_of_87 = s87;
          seq_of_88 = s88;
          second_seq_of_87 = second;
          seq_of_86 = s86;
        })
  unfolding split_package
  split_package_lem s87 s88 rest second s86 h k small small' e =
      rw
        (
          parse_seq 0xa0 s87 (encode_seq ciphers tlv codec 0xa1 s88 ++ rest)
              (omega arith, omega arith) small,
          split_seq 0x87 s87 (omega arith, omega arith) h,
          parse_seq 0xa1 s88 rest (omega arith, omega arith) small',
          split_seq 0x88 s88 (omega arith, omega arith) k,
          e,
        )
        refl
