-- ===== src/Smdpp/Oid/RoundTrip.antt =====
-- Object identifiers come back from their encoding in ITU-T X.690, section 8.19.
use mathlib.Core.List.{append_assoc}
use zk_e_sim_smdp.Common.{
  ℕ, zero, suc, ◌+◌, ◌-◌, ◌*◌, ◌/◌, ◌%◌, ◌≤◌, ◌<◌, ◌≡◌, refl, ap, ◌∙◌, true, false, List, [], ◌∷◌,
  ◌++◌, length, length-append, ltb, ◌==◌, if◌then◌else◌, arith, Bool-cases, inl, inr,
}
use zk_e_sim_smdp.Common.Outcome.{ok}
use zk_e_sim_smdp.Common.Bytes.{Bytes}
use zk_e_sim_smdp.Smdpp.Oid.{
  in_front, read_subidentifier, first_arcs, read_arcs, dotted, decode_object_identifier,
}

-- The bytes in front of the last one: seven bits each, the highest bit set. On fuel, of which the
-- number is enough.
unfoldable pub leading : ℕ → ℕ → Bytes
leading zero n = []
leading (suc fuel) n =
    let front = leading fuel (n / 128) in if n == 0 then [] else front ++ ((128 + n % 128) ∷ [])

unfoldable pub subidentifier : ℕ → Bytes
unfolding leading
subidentifier n = leading n (n / 128) ++ (n % 128 ∷ [])

unfoldable pub subidentifiers : List ℕ → Bytes
unfolding subidentifier
subidentifiers [] = []
subidentifiers (n ∷ ns) = subidentifier n ++ subidentifiers ns

-- The encoding of an object identifier by its arcs.
unfoldable pub encode : ℕ → ℕ → List ℕ → Bytes
unfolding subidentifiers
encode first second arcs = subidentifiers ((first * 40 + second) ∷ arcs)

-- One byte with its highest bit set moves the number by seven bits.
read_more :
    (n : ℕ) (rest : Bytes) (offset : ℕ)
    → read_subidentifier (n / 128) ((128 + n % 128) ∷ rest) offset
      ≡ read_subidentifier n rest (offset + 1)
unfolding read_subidentifier
read_more n rest offset =
    let goes_on : ((128 + n % 128) / 128 % 2 == 1) ≡ true = ground arith in
    let value : n / 128 * 128 + (128 + n % 128) % 128 ≡ n = omega arith in rw (goes_on, value) refl

read_last :
    (n : ℕ) (rest : Bytes) (offset : ℕ)
    → read_subidentifier (n / 128) ((n % 128) ∷ rest) offset ≡ ok (n, rest, offset + 1)
unfolding read_subidentifier
read_last n rest offset =
    let ends : (n % 128 / 128 % 2 == 1) ≡ false = ground arith in
    let value : n / 128 * 128 + n % 128 % 128 ≡ n = omega arith in rw (ends, value) refl

read-leading :
    (fuel n : ℕ) (rest : Bytes) (offset : ℕ)
    → n ≤ fuel
    → read_subidentifier 0 (leading fuel n ++ rest) offset
      ≡ read_subidentifier n rest (offset + length (leading fuel n))
unfolding leading
read-leading zero n rest offset h =
    let none_left : n ≡ 0 = omega arith in
    let here : offset + 0 ≡ offset = omega arith in rw (none_left, here) refl
read-leading (suc fuel) n rest offset h = elim (Bool-cases (n == 0)) [
  | inl is ↦
      let none_left : n ≡ 0 = ground (arith, is) in
      let here : offset + 0 ≡ offset = omega arith in rw (is, none_left, here) refl
  | inr isnt ↦
      let front = leading fuel (n / 128) in
      let b = 128 + n % 128 in
      let less : n / 128 ≤ fuel = ground (arith, h, isnt) in
      let further : offset + length (front ++ (b ∷ [])) ≡ offset + length front + 1 =
        omega (arith, length-append front (b ∷ [])) in
      rw (isnt, further, append_assoc front (b ∷ []) rest)
        (read-leading fuel (n / 128) (b ∷ rest) offset less
          ∙ read_more n rest (offset + length front))
]

-- A number comes back from its bytes.
read-subidentifier :
    (n : ℕ) (rest : Bytes) (offset : ℕ)
    → read_subidentifier 0 (subidentifier n ++ rest) offset
      ≡ ok (n, rest, offset + length (subidentifier n))
unfolding subidentifier
read-subidentifier n rest offset =
    let front = leading n (n / 128) in
    let less : n / 128 ≤ n = omega arith in
    let further : offset + length (front ++ (n % 128 ∷ [])) ≡ offset + length front + 1 =
      omega (arith, length-append front (n % 128 ∷ [])) in
    rw (further, append_assoc front (n % 128 ∷ []) rest)
      (read-leading n (n / 128) (n % 128 ∷ rest) offset less
        ∙ read_last n rest (offset + length front))

subidentifier-some : (n : ℕ) → 0 < length (subidentifier n)
unfolding subidentifier
subidentifier-some n = omega (arith, length-append (leading n (n / 128)) (n % 128 ∷ []))

-- The loop reads the numbers up to the end.
read_arcs-subidentifiers :
    (fuel : ℕ) (ns : List ℕ) (rest : Bytes) (offset end_offset : ℕ)
    → end_offset ≡ offset + length (subidentifiers ns)
    → length (subidentifiers ns) ≤ fuel
    → read_arcs fuel (subidentifiers ns ++ rest) offset end_offset ≡ ok ns
unfolding subidentifiers read_arcs
read_arcs-subidentifiers zero [] rest offset end_offset e h = refl
read_arcs-subidentifiers (suc fuel) [] rest offset end_offset e h =
    let ends : ltb offset end_offset ≡ false = ground (arith, e) in rw ends refl
read_arcs-subidentifiers zero (n ∷ ns) rest offset end_offset e h =
    absurd
      (omega (arith, h, subidentifier-some n, length-append (subidentifier n) (subidentifiers ns)))
read_arcs-subidentifiers (suc fuel) (n ∷ ns) rest offset end_offset e h =
    let all = length-append (subidentifier n) (subidentifiers ns) in
    let next = offset + length (subidentifier n) in
    let there : end_offset ≡ next + length (subidentifiers ns) = omega (arith, e, all) in
    let enough : length (subidentifiers ns) ≤ fuel = omega (arith, h, all, subidentifier-some n) in
    let inside : ltb offset end_offset ≡ true = ground (arith, e, all, subidentifier-some n) in
    rw
      (
        inside,
        append_assoc (subidentifier n) (subidentifiers ns) rest,
        read-subidentifier n (subidentifiers ns ++ rest) offset,
        read_arcs-subidentifiers fuel ns rest next end_offset there enough,
      )
      refl

first_arcs_lem :
    (first second : ℕ)
    → first ≤ 2
    → (first < 2 → second < 40)
    → first_arcs (first * 40 + second) ≡ (first, second)
unfolding first_arcs
first_arcs_lem zero second h k =
    let small : second < 40 = k (omega arith) in
    let low : ltb (0 * 40 + second) 40 ≡ true = ground (arith, small) in
    let same : 0 * 40 + second ≡ second = omega arith in rw (low, same) refl
first_arcs_lem (suc zero) second h k =
    let small : second < 40 = k (omega arith) in
    let high : ltb (1 * 40 + second) 40 ≡ false = ground arith in
    let low : ltb (1 * 40 + second) 80 ≡ true = ground (arith, small) in
    let same : 1 * 40 + second - 40 ≡ second = omega arith in rw (high, low, same) refl
first_arcs_lem (suc (suc zero)) second h k =
    let high : ltb (2 * 40 + second) 40 ≡ false = ground arith in
    let higher : ltb (2 * 40 + second) 80 ≡ false = ground arith in
    let same : 2 * 40 + second - 80 ≡ second = omega arith in rw (high, higher, same) refl
first_arcs_lem (suc (suc (suc n))) second h k = absurd (omega (arith, h))

-- An object identifier comes back from its encoding, whatever follows it: its first arc is at most 2,
-- and below 2 the second one is less than 40; with a first arc of 2, the second one is any.
pub decode_object_identifier-encode :
    (first second : ℕ) (arcs : List ℕ) (rest : Bytes) (offset : ℕ)
    → first ≤ 2
    → (first < 2 → second < 40)
    → decode_object_identifier
        (encode first second arcs ++ rest)
        offset
        (offset + length (encode first second arcs))
      ≡ ok (dotted (first ∷ second ∷ arcs))
unfolding encode subidentifiers decode_object_identifier in_front
decode_object_identifier-encode first second arcs rest offset h k =
    let n = first * 40 + second in
    let all = length-append (subidentifier n) (subidentifiers arcs) in
    let next = offset + length (subidentifier n) in
    let end_offset = offset + length (subidentifier n ++ subidentifiers arcs) in
    let there : end_offset ≡ next + length (subidentifiers arcs) = omega (arith, all) in
    let enough : length (subidentifiers arcs) ≤ end_offset - next = omega (arith, all) in
    rw
      (
        append_assoc (subidentifier n) (subidentifiers arcs) rest,
        read-subidentifier n (subidentifiers arcs ++ rest) offset,
        read_arcs-subidentifiers (end_offset - next) arcs rest next end_offset there enough,
      )
      (ap (λ p. ok (dotted (in_front p arcs))) (first_arcs_lem first second h k))
