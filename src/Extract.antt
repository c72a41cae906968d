-- ===== src/Extract.antt =====
-- `extract_euiccSigned1` and `extract_euiccSigned2` of pySim/esim/rsp.py: the bytes that a client has
-- signed, cut out of the message that carries them.
use zk_e_sim_smdp.Common.{ℕ, ◌<◌, ◌^◌, ◌≡◌, true, refl, sym, ap, ◌∙◌, ◌++◌, [], length, ◌==◌, arith}
use mathlib.Core.List.{append-nil}
use zk_e_sim_smdp.Common.Outcome.{Outcome, ok, value_error, type_error, guard, ◌>>=◌, ◌>>◌}
use zk_e_sim_smdp.Common.Bytes.{Bytes}
use zk_e_sim_smdp.Tlv.{Tlv, TlvLaws, encode, IsLongTag}

same_tag : (n : ℕ) → (n == n) ≡ true
same_tag n = ground arith

module _ (tlv : Tlv) where
  open tlv use {parse_one_rawtag, return_one_rawtlv}

  -- Both functions, by the outer tag that they expect. For the message of another outer tag `b2h` is
  -- called on a number, which raises TypeError.
  unfoldable pub extract_signed : ℕ → Bytes → Outcome Bytes
  extract_signed outer message = do
    (rawtag, v, remainder) ← parse_one_rawtag message
    guard (length remainder == 0) value_error
    guard (rawtag == outer) type_error
    (rawtag₁, v1, remainder₁) ← parse_one_rawtag v
    guard (rawtag₁ == 0xa0) value_error
    (rawtag₂, tlv2, remainder₂) ← return_one_rawtlv v1
    guard (rawtag₂ == 0x30) value_error
    ok tlv2

  unfoldable pub extract_euicc_signed1 : Bytes → Outcome Bytes
  extract_euicc_signed1 message = extract_signed 0xbf38 message

  unfoldable pub extract_euicc_signed2 : Bytes → Outcome Bytes
  extract_euicc_signed2 message = extract_signed 0xbf21 message

  -- A message of the outer tag, the chosen alternative and a sequence in front of what follows it.
  abbrev pub message_of : ℕ → Bytes → Bytes → Bytes → Bytes
  message_of outer signed behind more =
      encode tlv outer (encode tlv 0xa0 (encode tlv 0x30 signed ++ behind) ++ more)

  module _ (laws : TlvLaws tlv) where
    extract_at :
        (outer : ℕ) (signed behind more : Bytes)
        → IsLongTag outer
        → length (encode tlv 0xa0 (encode tlv 0x30 signed ++ behind) ++ more) < 2 ^ 32
        → length (encode tlv 0x30 signed ++ behind) < 2 ^ 32
        → length signed < 2 ^ 32
        → extract_signed outer (message_of outer signed behind more) ≡ ok (encode tlv 0x30 signed)
    unfolding extract_signed
    extract_at outer signed behind more long h₁ h₂ h₃ =
        let inner = encode tlv 0xa0 (encode tlv 0x30 signed ++ behind) ++ more in
        let whole : parse_one_rawtag (encode tlv outer inner) ≡ ok (outer, inner, []) =
          ap parse_one_rawtag (sym (append-nil (encode tlv outer inner)))
          ∙ laws.parse_one_rawtag_long outer inner [] long h₁ in
        rw
          (
            whole,
            same_tag outer,
            laws.parse_one_rawtag_short 0xa0 (encode tlv 0x30 signed ++ behind) more
                (omega arith, λ e. absurd (omega (arith, e))) h₂,
            laws.return_one_rawtlv_short 0x30 signed behind
                (omega arith, λ e. absurd (omega (arith, e))) h₃,
          )
          refl

    -- From a message of the right form exactly the signed sequence is cut out, with its tag and its
    -- length, whatever follows it, where no part has 2 ^ 32 bytes.
    pub extract_signed_lem :
        (signed behind more : Bytes)
        → length (encode tlv 0xa0 (encode tlv 0x30 signed ++ behind) ++ more) < 2 ^ 32
        → length (encode tlv 0x30 signed ++ behind) < 2 ^ 32
        → length signed < 2 ^ 32
        → (extract_euicc_signed1 (message_of 0xbf38 signed behind more)
            ≡ ok (encode tlv 0x30 signed))
          × (extract_euicc_signed2 (message_of 0xbf21 signed behind more)
              ≡ ok (encode tlv 0x30 signed))
    unfolding extract_euicc_signed1 extract_euicc_signed2
    extract_signed_lem signed behind more h₁ h₂ h₃ = (
      extract_at 0xbf38 signed behind more (omega arith, omega arith, omega arith) h₁ h₂ h₃,
      extract_at 0xbf21 signed behind more (omega arith, omega arith, omega arith) h₁ h₂ h₃,
    )
