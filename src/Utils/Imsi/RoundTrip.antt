-- ===== src/Utils/Imsi/RoundTrip.antt =====
-- An IMSI and an ICCID come back from their encodings in pySim/utils.py.
use zk_e_sim_smdp.Common.{
  ℕ, zero, suc, ◌+◌, ◌-◌, ◌*◌, ◌/◌, ◌%◌, ◌≤◌, ◌<◌, ◌≡◌, refl, ap, ◌∙◌, true, false, [], ◌∷◌, ◌++◌,
  some, All, length, length-append, length-replicate, replicate, ltb, ◌==◌, if◌then◌else◌, arith,
}
use zk_e_sim_smdp.Common.Outcome.{ok}
use zk_e_sim_smdp.Common.Hex.{Text, hex_digit, digit_value, digit_value-hex_digit}
use zk_e_sim_smdp.Utils.Strings.{is_digit, strip, lstrip, rstrip, rstrip_none}
use zk_e_sim_smdp.Utils.Luhn.{int_of}
use zk_e_sim_smdp.Utils.Imsi.{
  Nibbles, NibblesLaws, hex_byte, is_filler, length_byte, enc_imsi, imsi_of, dec_imsi, dec_iccid,
  enc_iccid,
}

digits_filler : (t : Text) → All (λ c. is_digit c ≡ true) t → All (λ c. is_filler c ≡ false) t
unfolding is_digit
digits_filler [] h = tt
digits_filler (c ∷ t) (h, hs) = (ground arith, digits_filler t hs)

-- The fillers behind a text are stripped.
rstrip-replicate : (m : ℕ) → rstrip is_filler (replicate m 102) ≡ []
unfolding rstrip
rstrip-replicate zero = refl
rstrip-replicate (suc m) = rw (rstrip-replicate m) refl

rstrip-append : (t : Text) (m : ℕ) → rstrip is_filler (t ++ replicate m 102) ≡ rstrip is_filler t
unfolding rstrip
rstrip-append [] m = rstrip-replicate m
rstrip-append (c ∷ t) m = rw (rstrip-append t m) refl

lstrip-replicate : (m : ℕ) → lstrip is_filler (replicate m 102) ≡ []
unfolding lstrip
lstrip-replicate zero = refl
lstrip-replicate (suc m) = lstrip-replicate m

strip_padded :
    (t : Text) (m : ℕ) → All (λ c. is_digit c ≡ true) t → strip is_filler (t ++ replicate m 102) ≡ t
unfolding strip lstrip
strip_padded [] m h = rw (lstrip-replicate m) (unfold rstrip in refl)
strip_padded (c ∷ t) m h =
    let (hc, ht) = digits_filler (c ∷ t) h in
    rw hc (rstrip-append (c ∷ t) m ∙ rstrip_none is_filler (c ∷ t) (hc, ht))

-- The byte in front of the nibbles.
short_byte : (l : ℕ) → l < 16 → hex_byte l ≡ 48 ∷ hex_digit l ∷ []
unfolding hex_byte
short_byte l h = ground arith

read_byte : (l : ℕ) (t : Text) → l < 16 → length_byte (48 ∷ hex_digit l ∷ t) ≡ ok l
unfolding length_byte
read_byte l t h =
    rw (digit_value-hex_digit l h) (unfold digit_value in ap (λ (x : ℕ). ok x) zero_plus)
  where
    zero_plus : 0 + l ≡ l
    zero_plus = omega arith

-- The first nibble is 1 or 9, and says whether the number of digits is odd.
parity_digit :
    (k : ℕ)
    → (int_of (hex_digit (k % 2 * 8 + 1)) ≡ ok (k % 2 * 8 + 1))
      × (is_filler (hex_digit (k % 2 * 8 + 1)) ≡ false)
unfolding int_of hex_digit
parity_digit k = (ground arith, ground arith)

-- The length byte agrees with the number of digits.
sizes_agree :
    (k l : ℕ)
    → l ≡ (k + 2) / 2
    → (l * 2 == (if (k % 2 * 8 + 1) / 8 % 2 == 1 then suc k else suc k + 1)) ≡ true
sizes_agree k l h = ground arith

module _ (n : Nibbles) (laws : NibblesLaws n) where
  open n use {swap_nibbles, rpad}

  -- Swapped twice, an even number of nibbles is as it was.
  swap_twice :
      (k : ℕ) (t : Text)
      → length t ≡ 2 * k
      → (swap_nibbles (swap_nibbles t) ≡ t) × (length (swap_nibbles t) ≡ length t)
  swap_twice zero [] h =
      (rw (laws.swap_nibbles_nil, laws.swap_nibbles_nil) refl, rw (laws.swap_nibbles_nil) refl)
  swap_twice zero (c ∷ t) h = absurd (omega arith)
  swap_twice (suc k) [] h = absurd (omega arith)
  swap_twice (suc k) (c ∷ []) h = absurd (omega arith)
  swap_twice (suc k) (c ∷ d ∷ t) h =
      let (same, size) = swap_twice k t (omega arith) in
      let there = laws.swap_nibbles_cons c d t in
      let back = laws.swap_nibbles_cons d c (swap_nibbles t) in
      (rw (there, back, same) refl, rw there (ap (λ (l : ℕ). suc (suc l)) size))

  -- The padding to a fixed size.
  padded :
      (t : Text) (size : ℕ)
      → length t ≤ size
      → (rpad t size ≡ t ++ replicate (size - length t) 102) × (length (rpad t size) ≡ size)
  padded t size h =
      let is = laws.rpad_lem t size in
      let fill : Text = replicate (size - length t) 102 in
      (
        is,
        rw is (omega (arith, length-append t fill, length-replicate {A = ℕ} (size - length t) 102)),
      )

  -- A number of up to twenty digits comes back from its encoding as an ICCID.
  pub dec_iccid-enc_iccid :
      (iccid : Text)
      → All (λ c. is_digit c ≡ true) iccid
      → length iccid ≤ 20
      → dec_iccid n (enc_iccid n iccid) ≡ iccid
  unfolding dec_iccid enc_iccid strip
  dec_iccid-enc_iccid iccid digits small =
      let (is, size) = padded iccid 20 small in
      let (same, _) = swap_twice 10 (rpad iccid 20) (omega (arith, size)) in
      rw (same, is) (strip_padded iccid (20 - length iccid) digits)

  -- An IMSI of up to fifteen digits comes back from its encoding.
  pub dec_imsi-enc_imsi :
      (imsi : Text)
      → All (λ c. is_digit c ≡ true) imsi
      → length imsi ≤ 15
      → dec_imsi n (enc_imsi n imsi) ≡ ok (some imsi)
  unfolding dec_imsi enc_imsi
  dec_imsi-enc_imsi imsi digits small =
      let parity : ℕ = length imsi % 2 * 8 + 1 in
      let odd : parity < 16 = omega arith in
      let (is, size) = padded imsi 15 small in
      let nibbles : Text = hex_digit parity ∷ rpad imsi 15 in
      let (same, long) = swap_twice 8 nibbles (omega (arith, size)) in
      let l : ℕ = n.half_round_up (length imsi + 1) in
      let half : l ≡ (length imsi + 2) / 2 =
        omega (arith, laws.half_round_up_lem (length imsi + 1)) in
      let short : l < 16 = omega arith in
      let front : hex_byte l ≡ 48 ∷ hex_digit l ∷ [] = short_byte l short in
      let rest : Text = swap_nibbles nibbles in
      let long_enough : ltb (length (48 ∷ hex_digit l ∷ rest)) 4 ≡ false =
        ground (arith, long, size) in
      let (first_digit, first_kept) = parity_digit (length imsi) in
      let stripped : rstrip is_filler (swap_nibbles rest) ≡ hex_digit parity ∷ imsi =
        ap (rstrip is_filler) (same ∙ ap (λ (t : Text). hex_digit parity ∷ t) is)
        ∙ rstrip-append (hex_digit parity ∷ imsi) (15 - length imsi)
        ∙ rstrip_none is_filler (hex_digit parity ∷ imsi) (first_kept, digits_filler imsi digits) in
      rw (front, long_enough, read_byte l rest short, stripped)
        (unfold imsi_of in rw (first_digit, sizes_agree (length imsi) l half) refl)
