-- ===== src/Tlv/Ber.antt =====
-- A concrete codec with the laws of the interface: tags of one and two bytes, lengths of up to four
-- bytes. It shows that the laws can be met; no theorem about the program rests on it.
use zk_e_sim_smdp.Common.{
  ℕ, zero, suc, ◌+◌, ◌-◌, ◌*◌, ◌/◌, ◌%◌, ◌^◌, ◌<◌, ◌≡◌, refl, [], ◌∷◌, ◌++◌, length, length-append,
  take, drop, take-append, drop-append, ltb, ◌==◌, if◌then◌else◌, arith, ◌∙◌,
}
use mathlib.Core.List.{append_assoc}
use zk_e_sim_smdp.Common.Outcome.{Outcome, ok, err, index_error, ◌>>=◌}
use zk_e_sim_smdp.Common.Bytes.{Bytes}
use zk_e_sim_smdp.Tlv.{Tlv, TlvLaws, IsShortTag, IsLongTag, encode}

unfoldable pub put_tag : ℕ → Bytes
put_tag t = if ltb t 256 then t ∷ [] else t / 256 ∷ t % 256 ∷ []

unfoldable pub put_len : ℕ → Bytes
put_len n =
    if ltb n 128
    then n ∷ []
    else if ltb n 256
    then 0x81 ∷ n ∷ []
    else if ltb n 65536
    then 0x82 ∷ n / 256 ∷ n % 256 ∷ []
    else if ltb n 16777216
    then 0x83 ∷ n / 65536 ∷ n / 256 % 256 ∷ n % 256 ∷ []
    else 0x84 ∷ n / 16777216 ∷ n / 65536 % 256 ∷ n / 256 % 256 ∷ n % 256 ∷ []

read : ℕ → ℕ → Bytes → Outcome (ℕ × Bytes)
read zero acc bs = ok (acc, bs)
read (suc k) acc [] = err index_error
read (suc k) acc (b ∷ bs) = read k (acc * 256 + b) bs

unfoldable pub get_len : Bytes → Outcome (ℕ × Bytes)
unfolding read
get_len [] = err index_error
get_len (l ∷ bs) = if ltb l 128 then ok (l, bs) else read (l - 128) 0 bs

unfoldable pub get_tag : Bytes → Outcome (ℕ × Bytes)
get_tag [] = err index_error
get_tag (t ∷ []) = ok (t, [])
get_tag (t ∷ u ∷ bs) = if t % 32 == 31 then ok (t * 256 + u, bs) else ok (t, u ∷ bs)

unfoldable pub get_rawtag : Bytes → Outcome (ℕ × Bytes × Bytes)
unfolding get_tag get_len
get_rawtag bs = do
  (tag, rest) ← get_tag bs
  (n, body) ← get_len rest
  ok (tag, take n body, drop n body)

unfoldable pub get_one : Bytes → Outcome (Bytes × Bytes)
unfolding get_rawtag
get_one bs = do (tag, value, rest) ← get_rawtag bs; ok (value, rest)

unfoldable pub get_rawtlv : Bytes → Outcome (ℕ × Bytes × Bytes)
unfolding get_rawtag
get_rawtlv bs = do
  (tag, value, rest) ← get_rawtag bs
  ok (tag, take (length bs - length rest) bs, rest)

abbrev pub ber : Tlv
ber = record {
  encode_tag = put_tag;
  encode_len = put_len;
  parse_one = get_one;
  parse_one_rawtag = get_rawtag;
  return_one_rawtlv = get_rawtlv;
}

get_len-put_len : (n : ℕ) (rest : Bytes) → n < 2 ^ 32 → get_len (put_len n ++ rest) ≡ ok (n, rest)
unfolding get_len put_len
get_len-put_len n rest h = ground arith

get_tag-short :
    (tag n : ℕ) (rest : Bytes)
    → IsShortTag tag
    → get_tag (put_tag tag ++ (put_len n ++ rest)) ≡ ok (tag, put_len n ++ rest)
unfolding get_tag put_tag put_len
get_tag-short tag n rest (small, low) = ground arith

get_tag-long :
    (tag : ℕ) (rest : Bytes) → IsLongTag tag → get_tag (put_tag tag ++ rest) ≡ ok (tag, rest)
unfolding get_tag put_tag
get_tag-long tag rest (small, high, low) = ground arith

get_rawtag_lem :
    (bs body : Bytes) (tag n : ℕ)
    → get_tag bs ≡ ok (tag, put_len n ++ body)
    → n < 2 ^ 32
    → get_rawtag bs ≡ ok (tag, take n body, drop n body)
unfolding get_rawtag
get_rawtag_lem bs body tag n h small = rw h (rw (get_len-put_len n body small))

split_value :
    (tag : ℕ) (value rest : Bytes)
    → ◌≡◌ {A = Outcome (ℕ × Bytes × Bytes)}
        (ok (tag, take (length value) (value ++ rest), drop (length value) (value ++ rest)))
        (ok (tag, value, rest))
split_value tag value rest =
    rw (take-append value rest (length value) refl)
      (rw (drop-append value rest (length value) refl))

regroup :
    (tag : ℕ) (value rest : Bytes)
    → encode ber tag value ++ rest ≡ put_tag tag ++ (put_len (length value) ++ (value ++ rest))
regroup tag value rest = simp append_assoc

get_rawtag-short :
    (tag : ℕ) (value rest : Bytes)
    → IsShortTag tag
    → length value < 2 ^ 32
    → get_rawtag (encode ber tag value ++ rest) ≡ ok (tag, value, rest)
get_rawtag-short tag value rest short small = rw (regroup tag value rest) (
    get_rawtag_lem _ (value ++ rest) tag (length value)
      (get_tag-short tag (length value) (value ++ rest) short) small
    ∙ split_value tag value rest)

get_rawtag-long :
    (tag : ℕ) (value rest : Bytes)
    → IsLongTag tag
    → length value < 2 ^ 32
    → get_rawtag (encode ber tag value ++ rest) ≡ ok (tag, value, rest)
get_rawtag-long tag value rest long small = rw (regroup tag value rest) (
    get_rawtag_lem _ (value ++ rest) tag (length value)
      (get_tag-long tag (put_len (length value) ++ (value ++ rest)) long) small
    ∙ split_value tag value rest)

get_rawtlv_lem :
    (tag : ℕ) (tlv value rest : Bytes)
    → get_rawtag (tlv ++ rest) ≡ ok (tag, value, rest)
    → get_rawtlv (tlv ++ rest) ≡ ok (tag, tlv, rest)
unfolding get_rawtlv
get_rawtlv_lem tag tlv value rest h = rw h (
    let cut : length (tlv ++ rest) - length rest ≡ length tlv =
      omega (arith, length-append tlv rest) in
    rw cut (rw (take-append tlv rest (length tlv) refl)))

get_tag-one_byte :
    (tag n : ℕ) (value : Bytes)
    → IsShortTag tag
    → get_tag (tag ∷ (put_len n ++ value)) ≡ ok (tag, put_len n ++ value)
unfolding get_tag put_len
get_tag-one_byte tag n value (small, low) = ground arith

get_one_lem :
    (tag n : ℕ) (value : Bytes)
    → IsShortTag tag
    → n < 2 ^ 32
    → get_one (tag ∷ (put_len n ++ value)) ≡ ok (take n value, drop n value)
unfolding get_one
get_one_lem tag n value short small = rw (
    get_rawtag_lem (tag ∷ (put_len n ++ value)) value tag n (get_tag-one_byte tag n value short)
      small)

pub ber_laws : TlvLaws ber
ber_laws = record {
  encode_tag_short = λ tag h. unfold put_tag in ground arith;
  encode_tag_long = λ tag h. unfold put_tag in ground arith;
  encode_len_one = λ n h. unfold put_len in ground arith;
  encode_len_two = λ n h k. unfold put_len in ground arith;
  encode_len_three = λ n h k. unfold put_len in ground arith;
  parse_one_lem = get_one_lem;
  parse_one_rawtag_short = get_rawtag-short;
  parse_one_rawtag_long = get_rawtag-long;
  return_one_rawtlv_short = λ tag value rest h k.
      get_rawtlv_lem tag (encode ber tag value) value rest (get_rawtag-short tag value rest h k);
  return_one_rawtlv_long = λ tag value rest h k.
      get_rawtlv_lem tag (encode ber tag value) value rest (get_rawtag-long tag value rest h k);
}
