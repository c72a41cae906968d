-- ===== src/Utils/Plmn/RoundTrip.antt =====
-- The codes of a network in pySim/utils.py come back from their encoding, as text and as numbers.
use zk_e_sim_smdp.Common.{
  ℕ, ◌≡◌, ◌⊎◌, inl, inr, refl, ap, ◌∙◌, true, false, [], ◌∷◌, All, length, arith,
}
use zk_e_sim_smdp.Common.Outcome.{ok, ◌>>=◌}
use zk_e_sim_smdp.Common.Hex.{Text}
use zk_e_sim_smdp.Utils.Strings.{
  is_white, is_digit, strip, lstrip, rstrip, upper, upper_char, strip_none, digits_white,
  digits_upper,
}
use zk_e_sim_smdp.Utils.Plmn.{
  char_at, pad_mcc, pad_mnc, arrange, enc_plmn, is_f, dec_mcc_from_plmn_str, dec_mnc_from_plmn_str,
  dec_plmn,
}

digits_f : (t : Text) → All (λ c. is_digit c ≡ true) t → All (λ c. is_f c ≡ false) t
unfolding is_digit
digits_f [] h = tt
digits_f (c ∷ t) (h, hs) = (ground arith, digits_f t hs)

-- Three digits are left as they are.
kept : (t : Text) → All (λ c. is_digit c ≡ true) t → strip is_f (upper t) ≡ t
kept t h = ap (strip is_f) (digits_upper t h) ∙ strip_none is_f t (digits_f t h)

-- The filler behind two digits is dropped.
kept_two :
    (d e : ℕ)
    → is_digit d ≡ true
    → is_digit e ≡ true
    → strip is_f (upper (d ∷ e ∷ 70 ∷ [])) ≡ d ∷ e ∷ []
unfolding upper strip lstrip rstrip
kept_two d e hd he =
    let ud : upper_char d ≡ d = unfold upper_char is_digit in ground arith in
    let ue : upper_char e ≡ e = unfold upper_char is_digit in ground arith in
    let fd : is_f d ≡ false = unfold is_digit in ground arith in
    let fe : is_f e ≡ false = unfold is_digit in ground arith in
    let uf : upper_char 70 ≡ 70 = unfold upper_char in refl in rw (ud, ue, uf, fd, fe) refl

-- Codes that have their sizes, in the encoding and back.
three_and_two :
    (a b c d e : ℕ)
    → All (λ x. is_digit x ≡ true) (a ∷ b ∷ c ∷ [])
    → All (λ x. is_digit x ≡ true) (d ∷ e ∷ [])
    → (enc_plmn (a ∷ b ∷ c ∷ []) (d ∷ e ∷ []) >>= dec_plmn) ≡ ok (a ∷ b ∷ c ∷ [], d ∷ e ∷ [])
unfolding enc_plmn dec_plmn dec_mcc_from_plmn_str dec_mnc_from_plmn_str
three_and_two a b c d e h (hd, (he, hn)) =
    rw
      (
        strip_none is_white (a ∷ b ∷ c ∷ []) (digits_white (a ∷ b ∷ c ∷ []) h),
        strip_none is_white (d ∷ e ∷ []) (digits_white (d ∷ e ∷ []) (hd, (he, hn))),
      )
      (unfold pad_mcc pad_mnc arrange char_at in
        rw (kept (a ∷ b ∷ c ∷ []) h, kept_two d e hd he) refl)

three_and_three :
    (a b c d e f : ℕ)
    → All (λ x. is_digit x ≡ true) (a ∷ b ∷ c ∷ [])
    → All (λ x. is_digit x ≡ true) (d ∷ e ∷ f ∷ [])
    → (enc_plmn (a ∷ b ∷ c ∷ []) (d ∷ e ∷ f ∷ []) >>= dec_plmn)
      ≡ ok (a ∷ b ∷ c ∷ [], d ∷ e ∷ f ∷ [])
unfolding enc_plmn dec_plmn dec_mcc_from_plmn_str dec_mnc_from_plmn_str
three_and_three a b c d e f h k =
    rw
      (
        strip_none is_white (a ∷ b ∷ c ∷ []) (digits_white (a ∷ b ∷ c ∷ []) h),
        strip_none is_white (d ∷ e ∷ f ∷ []) (digits_white (d ∷ e ∷ f ∷ []) k),
      )
      (unfold pad_mcc pad_mnc arrange char_at in
        rw (kept (a ∷ b ∷ c ∷ []) h, kept (d ∷ e ∷ f ∷ []) k) refl)

three_of : (t : Text) → length t ≡ 3 → (a : ℕ) × (b : ℕ) × (c : ℕ) × (t ≡ a ∷ b ∷ c ∷ [])
three_of (a ∷ b ∷ c ∷ []) h = (a, b, c, refl)
three_of [] h = absurd (omega arith)
three_of (a ∷ []) h = absurd (omega arith)
three_of (a ∷ b ∷ []) h = absurd (omega arith)
three_of (a ∷ b ∷ c ∷ d ∷ t) h = absurd (omega arith)

two_of : (t : Text) → length t ≡ 2 → (a : ℕ) × (b : ℕ) × (t ≡ a ∷ b ∷ [])
two_of (a ∷ b ∷ []) h = (a, b, refl)
two_of [] h = absurd (omega arith)
two_of (a ∷ []) h = absurd (omega arith)
two_of (a ∷ b ∷ c ∷ t) h = absurd (omega arith)

-- A country code of three digits and a network code of two or three come back from their encoding.
pub dec_plmn-enc_plmn :
    (mcc mnc : Text)
    → All (λ c. is_digit c ≡ true) mcc
    → All (λ c. is_digit c ≡ true) mnc
    → length mcc ≡ 3
    → (length mnc ≡ 2) ⊎ (length mnc ≡ 3)
    → (enc_plmn mcc mnc >>= dec_plmn) ≡ ok (mcc, mnc)
unfolding enc_plmn dec_plmn
dec_plmn-enc_plmn mcc mnc h k three (inl two) =
    let (a, b, c, is) = three_of mcc three in
    let (d, e, is') = two_of mnc two in
    rw (is, is') (three_and_two a b c d e (rw is at h) (rw is' at k))
dec_plmn-enc_plmn mcc mnc h k three (inr three') =
    let (a, b, c, is) = three_of mcc three in
    let (d, e, f, is') = three_of mnc three' in
    rw (is, is') (three_and_three a b c d e f (rw is at h) (rw is' at k))
