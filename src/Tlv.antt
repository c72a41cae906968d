-- ===== src/Tlv.antt =====
-- The BER-TLV functions of the package pyosmocom (`osmocom.tlv`), which the code only calls: an
-- interface, with what their documentation says of them as laws.
use zk_e_sim_smdp.Common.{
  ℕ, ◌+◌, ◌/◌, ◌%◌, ◌^◌, ◌≤◌, ◌<◌, ◌≡◌, ◌≢◌, List, [], ◌∷◌, ◌++◌, length, take, drop,
}
use zk_e_sim_smdp.Common.Outcome.{Outcome, ok}
use zk_e_sim_smdp.Common.Bytes.{Bytes}
pub mod Ber

pub record Tlv : Type 0 where
  -- `bertlv_encode_tag`, `bertlv_encode_len`
  pub encode_tag : ℕ → Bytes
  pub encode_len : ℕ → Bytes
  -- `bertlv_parse_one`: the value and the rest (the code uses the tag and the length for logging)
  pub parse_one : Bytes → Outcome (Bytes × Bytes)
  -- `bertlv_parse_one_rawtag`: the tag as a number, the value and the rest
  pub parse_one_rawtag : Bytes → Outcome (ℕ × Bytes × Bytes)
  -- `bertlv_return_one_rawtlv`: the tag, the whole TLV and the rest
  pub return_one_rawtlv : Bytes → Outcome (ℕ × Bytes × Bytes)

-- A tag of one byte: its low five bits are not all set.
abbrev pub IsShortTag : ℕ → Type 0
IsShortTag tag = (tag < 256) × (tag % 32 ≢ 31)

-- A tag of two bytes: those of the first are, and the second has no continuation bit.
abbrev pub IsLongTag : ℕ → Type 0
IsLongTag tag = (tag < 65536) × (tag / 256 % 32 ≡ 31) × (tag % 256 < 128)

module _ (tlv : Tlv) where
  abbrev pub encode : ℕ → Bytes → Bytes
  encode tag value = tlv.encode_tag tag ++ (tlv.encode_len (length value) ++ value)

  pub record TlvLaws : Type 0 where
    pub encode_tag_short : (tag : ℕ) → IsShortTag tag → tlv.encode_tag tag ≡ tag ∷ []
    pub encode_tag_long :
        (tag : ℕ) → IsLongTag tag → tlv.encode_tag tag ≡ tag / 256 ∷ tag % 256 ∷ []
    pub encode_len_one : (n : ℕ) → n < 128 → tlv.encode_len n ≡ n ∷ []
    pub encode_len_two : (n : ℕ) → 128 ≤ n → n < 256 → tlv.encode_len n ≡ 0x81 ∷ n ∷ []
    pub encode_len_three :
        (n : ℕ) → 256 ≤ n → n < 65536 → tlv.encode_len n ≡ 0x82 ∷ n / 256 ∷ n % 256 ∷ []
    -- A value that ends before the length says so is returned as far as it goes.
    pub parse_one_lem :
        (tag n : ℕ) (value : Bytes)
        → IsShortTag tag
        → n < 2 ^ 32
        → tlv.parse_one (tag ∷ (tlv.encode_len n ++ value)) ≡ ok (take n value, drop n value)
    pub parse_one_rawtag_short :
        (tag : ℕ) (value rest : Bytes)
        → IsShortTag tag
        → length value < 2 ^ 32
        → tlv.parse_one_rawtag (encode tag value ++ rest) ≡ ok (tag, value, rest)
    pub parse_one_rawtag_long :
        (tag : ℕ) (value rest : Bytes)
        → IsLongTag tag
        → length value < 2 ^ 32
        → tlv.parse_one_rawtag (encode tag value ++ rest) ≡ ok (tag, value, rest)
    pub return_one_rawtlv_short :
        (tag : ℕ) (value rest : Bytes)
        → IsShortTag tag
        → length value < 2 ^ 32
        → tlv.return_one_rawtlv (encode tag value ++ rest) ≡ ok (tag, encode tag value, rest)
    pub return_one_rawtlv_long :
        (tag : ℕ) (value rest : Bytes)
        → IsLongTag tag
        → length value < 2 ^ 32
        → tlv.return_one_rawtlv (encode tag value ++ rest) ≡ ok (tag, encode tag value, rest)
