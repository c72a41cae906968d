-- ===== src/Smdpp/Signature.antt =====
-- ECDSA signatures between the form of BSI TR-03111 and that of the package `cryptography`:
-- `ecdsa_tr03111_to_dss` of osmo-smdpp.py and `ecdsa_dss_to_tr03111` of pySim/esim/x509_cert.py.
use zk_e_sim_smdp.Common.{
  ℕ, zero, suc, ◌+◌, ◌*◌, ◌/◌, ◌%◌, ◌^◌, ◌<◌, ◌≡◌, [], ◌∷◌, ◌++◌, length, length-append, take, drop,
  take-append, drop-append, take_all, ltb, lt→ltb, ◌==◌, if◌then◌else◌, arith, ap, ◌∙◌,
}
use native.Mathlib.Nat.{pow-suc}
use zk_e_sim_smdp.Common.Outcome.{Outcome, ok, err, assertion_error, overflow_error, ◌>>=◌}
use zk_e_sim_smdp.Common.Bytes.{Bytes, from_bytes_be, digits_be, length-digits_be}

-- `n.to_bytes(32, 'big')`
unfoldable pub to_bytes_32 : ℕ → Outcome Bytes
to_bytes_32 n = if ltb n (2 ^ 256) then ok (digits_be 32 n []) else err overflow_error

module _ (encode_dss : ℕ → ℕ → Bytes) where
  unfoldable pub ecdsa_tr03111_to_dss : Bytes → Outcome Bytes
  ecdsa_tr03111_to_dss sig =
      if length sig == 64
      then ok (encode_dss (from_bytes_be 0 (take 32 sig)) (from_bytes_be 0 (take 32 (drop 32 sig))))
      else err assertion_error

-- `ecdsa_dss_to_tr03111`, on the two numbers that `decode_dss_signature` returns
unfoldable pub ecdsa_dss_to_tr03111 : ℕ → ℕ → Outcome Bytes
unfolding to_bytes_32
ecdsa_dss_to_tr03111 r s = to_bytes_32 r >>= λ front. to_bytes_32 s >>= λ back. ok (front ++ back)

-- Reading the digits that were written gives the number, in front of what was read before.
from_bytes_be-digits_be :
    (w n acc : ℕ) (rest : Bytes)
    → n < 256 ^ w
    → from_bytes_be acc (digits_be w n rest) ≡ from_bytes_be (acc * 256 ^ w + n) rest
unfolding digits_be from_bytes_be
from_bytes_be-digits_be zero n acc rest h = ap (λ (x : ℕ). from_bytes_be x rest) (omega arith)
from_bytes_be-digits_be (suc w) n acc rest h =
    let power : 256 ^ suc w ≡ 256 ^ w * 256 = pow-suc 256 w in
    from_bytes_be-digits_be w (n / 256) acc (n % 256 ∷ rest) (omega arith)
    ∙ ap (λ (x : ℕ). from_bytes_be x rest) (omega (arith, ap (λ (t : ℕ). acc * t) power))

digits_again : (n : ℕ) → n < 2 ^ 256 → from_bytes_be 0 (digits_be 32 n []) ≡ n
digits_again n h =
    from_bytes_be-digits_be 32 n 0 [] (omega arith) ∙ unfold from_bytes_be in omega arith

raw_again :
    (encode_dss : ℕ → ℕ → Bytes) (r s : ℕ) (a b : Bytes)
    → length a ≡ 32
    → length b ≡ 32
    → from_bytes_be 0 a ≡ r
    → from_bytes_be 0 b ≡ s
    → ecdsa_tr03111_to_dss encode_dss (a ++ b) ≡ ok (encode_dss r s)
unfolding ecdsa_tr03111_to_dss
raw_again encode_dss r s a b la lb ra sb =
    let whole : length (a ++ b) ≡ 64 = omega (arith, length-append a b) in
    rw (whole, take-append a b 32 (omega arith), drop-append a b 32 (omega arith))
      (rw (take_all b 32 (omega arith), ra, sb))

-- Two numbers below 2 ^ 256 come back from their raw form: the DER form of the signature is that of
-- the two numbers.
pub ecdsa_tr03111_to_dss-ecdsa_dss_to_tr03111 :
    (encode_dss : ℕ → ℕ → Bytes) (r s : ℕ)
    → r < 2 ^ 256
    → s < 2 ^ 256
    → (ecdsa_dss_to_tr03111 r s >>= ecdsa_tr03111_to_dss encode_dss) ≡ ok (encode_dss r s)
unfolding ecdsa_dss_to_tr03111
ecdsa_tr03111_to_dss-ecdsa_dss_to_tr03111 encode_dss r s hr hs =
    rw (lt→ltb r (2 ^ 256) hr, lt→ltb s (2 ^ 256) hs)
      (raw_again encode_dss r s (digits_be 32 r []) (digits_be 32 s []) (length-digits_be 32 r [])
        (length-digits_be 32 s []) (digits_again r hr) (digits_again s hs))
