-- ===== src/Utils/Runs.antt =====
-- The helpers of pySim/utils.py at concrete inputs.
use zk_e_sim_smdp.Common.{
  ℕ, ◌+◌, ◌-◌, ◌/◌, ◌≤◌, ◌<◌, ◌≡◌, refl, inl, inr, some, [], ◌∷◌, ◌++◌, length, replicate, arith,
}
use zk_e_sim_smdp.Common.Outcome.{ok, err, value_error, ◌>>=◌}
use zk_e_sim_smdp.Common.Bytes.{Bytes}
use zk_e_sim_smdp.Common.Hex.{Text}
use zk_e_sim_smdp.Tlv.Ber.{ber, ber_laws, put_tag, put_len}
use zk_e_sim_smdp.Utils.Apdu.{
  Command, data_in_out, IsCommand, command_apdu, parsed, parse_command_apdu,
  parse_command_apdu-command_apdu,
}
use zk_e_sim_smdp.Utils.Luhn.{
  int_of, digit_behind, digits_of, check_digit, calculate_luhn, split_end, verify_luhn, add_luhn,
  keep_or_add, complete_iccid, check_iccid, sanitize_iccid,
}
use zk_e_sim_smdp.Utils.Luhn.Errors.{verify_luhn_single}
use zk_e_sim_smdp.Utils.Luhn.Iccid.{sanitize_iccid-sanitize_iccid}
use zk_e_sim_smdp.Utils.Strings.{is_digit}
use zk_e_sim_smdp.Utils.Plmn.{enc_plmn, dec_plmn}
use zk_e_sim_smdp.Utils.Plmn.RoundTrip.{dec_plmn-enc_plmn}
use zk_e_sim_smdp.Utils.Imsi.{Nibbles, NibblesLaws, enc_imsi, dec_imsi}
use zk_e_sim_smdp.Utils.Imsi.RoundTrip.{dec_imsi-enc_imsi}
use zk_e_sim_smdp.Utils.DataObjects.{DataObject, to_tlv, member_by_tag, decode_collection}
use zk_e_sim_smdp.Utils.DataObjects.RoundTrip.{
  encode_all, Reads, Done, decode_collection-encode_all,
}

-- Three bytes of data, 256 expected.
abbrev command : Command
command = data_in_out (0, 0xa4, 0, 4) (1 ∷ 2 ∷ 3 ∷ []) 256

parse_command_apdu-command_apdu_example :
    parse_command_apdu (command_apdu command) ≡ ok (parsed command)
parse_command_apdu-command_apdu_example =
    parse_command_apdu-command_apdu command
      (unfold IsCommand in (omega arith, omega arith, omega arith, omega arith))

-- "18"
abbrev eighteen : Text
eighteen = 49 ∷ 56 ∷ []

accepts_eighteen : verify_luhn eighteen ≡ ok tt
unfolding verify_luhn calculate_luhn digits_of check_digit split_end
accepts_eighteen = refl

verify_luhn_single_example : ◌≡◌ {A = ℕ} 49 49
verify_luhn_single_example =
    verify_luhn_single [] (56 ∷ []) 49 49 (omega arith) (omega arith) accepts_eighteen
      accepts_eighteen

-- The digit one of the Arabic script is read as 1, and the superscript two is no decimal digit.
reads_arabic : int_of 0x661 ≡ ok 1
unfolding int_of digit_behind
reads_arabic = refl

refuses_superscript : int_of 0xb2 ≡ err value_error
unfolding int_of digit_behind
refuses_superscript = refl

-- Eighteen times "8", and with the check digit "5".
abbrev eights : Text
eights = replicate 18 56

abbrev with_check_digit : Text
with_check_digit = eights ++ 53 ∷ []

sanitized : sanitize_iccid eights ≡ ok with_check_digit
unfolding sanitize_iccid complete_iccid add_luhn check_iccid keep_or_add verify_luhn calculate_luhn
    digits_of check_digit split_end
sanitized = refl

sanitize_iccid-sanitize_iccid_example :
    (verify_luhn with_check_digit ≡ ok tt)
    × (19 ≤ length with_check_digit)
    × (length with_check_digit ≤ 20)
    × (sanitize_iccid with_check_digit ≡ ok with_check_digit)
sanitize_iccid-sanitize_iccid_example =
    sanitize_iccid-sanitize_iccid eights with_check_digit sanitized

-- The codes "262" and "01".
dec_plmn-enc_plmn_example :
    (enc_plmn (50 ∷ 54 ∷ 50 ∷ []) (48 ∷ 49 ∷ []) >>= dec_plmn)
    ≡ ok (50 ∷ 54 ∷ 50 ∷ [], 48 ∷ 49 ∷ [])
dec_plmn-enc_plmn_example =
    dec_plmn-enc_plmn (50 ∷ 54 ∷ 50 ∷ []) (48 ∷ 49 ∷ [])
      (unfold is_digit in (refl, (refl, (refl, tt)))) (unfold is_digit in (refl, (refl, tt))) refl
      (inl refl)

-- Nibbles as the package documents them.
unfoldable swap : Text → Text
swap [] = []
swap (c ∷ []) = c ∷ []
swap (c ∷ d ∷ t) = d ∷ c ∷ swap t

abbrev nibbles : Nibbles
nibbles = record {
  swap_nibbles = swap;
  rpad = λ t l. t ++ replicate (l - length t) 102;
  half_round_up = λ k. (k + 1) / 2;
}

nibbles_laws : NibblesLaws nibbles
unfolding swap
nibbles_laws = record {
  swap_nibbles_nil = refl;
  swap_nibbles_cons = λ c d t. refl;
  rpad_lem = λ t l. refl;
  half_round_up_lem = λ k. refl;
}

dec_imsi-enc_imsi_example :
    dec_imsi nibbles (enc_imsi nibbles (50 ∷ 54 ∷ 50 ∷ 48 ∷ []))
    ≡ ok (some (50 ∷ 54 ∷ 50 ∷ 48 ∷ []))
dec_imsi-enc_imsi_example =
    dec_imsi-enc_imsi nibbles nibbles_laws (50 ∷ 54 ∷ 50 ∷ 48 ∷ [])
      (unfold is_digit in (refl, (refl, (refl, (refl, tt))))) (omega arith)

-- An object that keeps its value as it is.
abbrev plain_object : DataObject Bytes
plain_object = record { name = 112 ∷ []; tag = 0x80; from_bytes = λ b. ok b; to_bytes = λ b. ok b }

decode_collection-encode_all_example :
    decode_collection Bytes 8 (plain_object ∷ []) (0x80 ∷ 1 ∷ 7 ∷ 0x80 ∷ 0 ∷ 0xff ∷ 0xff ∷ [])
    ≡ ok ((112 ∷ [], 7 ∷ []) ∷ (112 ∷ [], []) ∷ [], 0xff ∷ 0xff ∷ [])
decode_collection-encode_all_example =
    decode_collection-encode_all Bytes ber ber_laws 8 (plain_object ∷ [])
      ((plain_object, 7 ∷ []) ∷ (plain_object, []) ∷ []) (0x80 ∷ 1 ∷ 7 ∷ 0x80 ∷ 0 ∷ [])
      (0xff ∷ 0xff ∷ []) (reads (7 ∷ []) (omega arith), (reads [] (omega arith), tt))
      (unfold encode_all to_tlv put_tag put_len in refl) (unfold Done in inr (0xff ∷ [], refl))
      (omega arith)
  where
    reads :
        (v : Bytes)
        → length v < 128
        → Reads Bytes ber ber_laws (plain_object ∷ []) (plain_object, v)
    reads v small = record {
      short_tag = (omega arith, omega arith);
      own_tag = unfold member_by_tag in refl;
      reads = λ b h. cc;
      short_value = λ b h. let same : v ≡ b = cc in rw (← same) small;
    }
