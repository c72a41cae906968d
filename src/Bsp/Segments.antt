-- ===== src/Bsp/Segments.antt =====
-- The loops that cut the text into segments lose nothing, and end: no fuel is missing where the
-- maximal payload is not 0.
use zk_e_sim_smdp.Common.{
  ℕ, zero, suc, ◌≤◌, ◌<◌, ◌≡◌, refl, [], ◌∷◌, ◌++◌, All, length, length-take, length-drop, take,
  drop, join, take-append-drop, ltb, ltb→lt, inl, inr, Bool-cases, arith, ap, ◌∙◌,
}
use mathlib.Core.List.{append-nil}
use zk_e_sim_smdp.Common.Bytes.{Bytes}
use zk_e_sim_smdp.Bsp.{segments}

-- The segments, put together, are the text, for a positive limit and as much fuel as there are bytes.
pub join-segments :
    (fuel limit : ℕ) (text : Bytes)
    → 0 < limit
    → length text ≤ fuel
    → join (segments fuel limit text) ≡ text
unfolding segments
join-segments fuel limit [] h k = refl
join-segments zero limit (b ∷ bs) h k = absurd (omega arith)
join-segments (suc fuel) limit (b ∷ bs) h k = elim (Bool-cases (ltb (length (b ∷ bs)) limit)) [
  | inl short ↦ rw short (append-nil (b ∷ bs))
  | inr long ↦ rw long (
      ap (λ (t : Bytes). take limit (b ∷ bs) ++ t)
        (join-segments fuel limit (drop limit (b ∷ bs)) h
          (omega (arith, length-drop limit (b ∷ bs))))
      ∙ take-append-drop limit (b ∷ bs))
]

-- No segment is longer than the limit.
pub segments_short :
    (fuel limit : ℕ) (text : Bytes) → All (λ s. length s ≤ limit) (segments fuel limit text)
unfolding segments
segments_short fuel limit [] = tt
segments_short zero limit (b ∷ bs) = tt
segments_short (suc fuel) limit (b ∷ bs) = elim (Bool-cases (ltb (length (b ∷ bs)) limit)) [
  | inl short ↦ rw short (omega (arith, ltb→lt (length (b ∷ bs)) limit short), tt)
  | inr long ↦
      rw long
        (omega (arith, length-take limit (b ∷ bs)), segments_short fuel limit (drop limit (b ∷ bs)))
]

-- There are at most as many segments as bytes.
pub length-segments :
    (fuel limit : ℕ) (text : Bytes) → 0 < limit → length (segments fuel limit text) ≤ length text
unfolding segments
length-segments fuel limit [] h = omega arith
length-segments zero limit (b ∷ bs) h = omega arith
length-segments (suc fuel) limit (b ∷ bs) h = elim (Bool-cases (ltb (length (b ∷ bs)) limit)) [
  | inl short ↦ rw short (omega arith)
  | inr long ↦ rw long (
      omega (arith, length-segments fuel limit (drop limit (b ∷ bs)) h, length-drop limit (b ∷ bs)))
]
