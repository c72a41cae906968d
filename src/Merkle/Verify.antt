-- ===== src/Merkle/Verify.antt =====
-- `verifyProof` against `generateProof`. The code hashes the smaller of two siblings first when it
-- verifies, and the left one first when it builds the root: the two agree where every pair of the
-- path is in ascending order, and disagree elsewhere up to a collision of the hash.
use zk_e_sim_smdp.Common.{
  ℕ, ◌/◌, ◌%◌, ◌≡◌, refl, ◌≢◌, ◌⊎◌, inl, inr, true, false, some, List, [], ◌∷◌, ◌++◌, if◌then◌else◌,
  arith, ap, ◌∙◌, Bool-cases, ◌==◌,
}
use zk_e_sim_smdp.Common.Outcome.{ok}
use zk_e_sim_smdp.Common.Bytes.{Bytes, beq_iff, blt, beq_refl, blt_irrefl}
use zk_e_sim_smdp.Common.Hex.{Text, from_hex}
use zk_e_sim_smdp.Merkle.{
  MerkleAccumulator, computed, values, level_siblings, sibling_at, next_level, climb, proof_loop,
  contains, index_of, generate_proof, verify_loop, verify_proof,
}
use zk_e_sim_smdp.Merkle.Proof.{parent, recompute}
use zk_e_sim_smdp.Merkle.Accumulator.{IsKeyed, IsConsistent, generate_proof_recomputes}

module _ (sha256 : Bytes → Bytes) where
  -- The left one of two siblings, by the position, is the smaller one, or they are the same.
  abbrev pub InOrder : ℕ → Bytes → Bytes → Type 0
  InOrder index current sibling =
      if index % 2 == 0
      then (blt current sibling ≡ true) ⊎ (current ≡ sibling)
      else blt current sibling ≡ false

  -- Every pair on the path from a leaf to the root is in order.
  abbrev pub PathInOrder : ℕ → Bytes → List Bytes → Type 0
  PathInOrder index current [] = Unit
  PathInOrder index current (sibling ∷ proof) =
      InOrder index current sibling
      × PathInOrder (index / 2) (parent sha256 index current sibling) proof

  left_first :
      (current sibling : Bytes)
      → (blt current sibling ≡ true) ⊎ (current ≡ sibling)
      → (if blt current sibling then sha256 (current ++ sibling) else sha256 (sibling ++ current))
        ≡ sha256 (current ++ sibling)
  left_first current sibling (inl h) = rw h
  left_first current sibling (inr h) = rw (h, blt_irrefl sibling)

  step-InOrder :
      (index : ℕ) (current sibling : Bytes)
      → InOrder index current sibling
      → (if blt current sibling then sha256 (current ++ sibling) else sha256 (sibling ++ current))
        ≡ parent sha256 index current sibling
  unfolding parent
  step-InOrder index current sibling h = elim (Bool-cases (index % 2 == 0)) [
    | inl even ↦ let h' = rw even at h in rw even (left_first current sibling h')
    | inr odd ↦ let h' = rw odd at h in rw (odd, h')
  ]

  -- On a path in order `verifyProof` computes what the positions would have it compute.
  pub verify_loop-recompute :
      (index : ℕ) (current : Bytes) (proof : List Bytes)
      → PathInOrder index current proof
      → verify_loop sha256 current proof ≡ recompute sha256 index current proof
  unfolding verify_loop recompute
  verify_loop-recompute index current [] h = refl
  verify_loop-recompute index current (s ∷ proof) (here, rest) =
      rw (step-InOrder index current s here)
        (verify_loop-recompute (index / 2) (parent sha256 index current s) proof rest)

  generated_contains :
      (acc : MerkleAccumulator) (e : Text) (proof : List Bytes)
      → generate_proof sha256 acc e ≡ some proof
      → contains acc.leaves e ≡ true
  unfolding generate_proof
  generated_contains acc e proof h = ground arith

  -- `verifyProof` accepts what `generateProof` returns for an element, against the accumulator's
  -- root, whenever every pair on the path is in order.
  pub verify_proof-generate_proof :
      (acc : MerkleAccumulator) (e : Text) (leaf root : Bytes) (proof : List Bytes)
      → IsConsistent sha256 acc
      → from_hex e ≡ some leaf
      → generate_proof sha256 acc e ≡ some proof
      → acc.root ≡ computed (some root)
      → PathInOrder (index_of acc.leaves e) leaf proof
      → verify_proof sha256 e proof root ≡ ok true
  unfolding verify_proof
  verify_proof-generate_proof acc e leaf root proof c spelled generated rooted order =
      let (leaf', proof', s, g, r) =
        generate_proof_recomputes sha256 acc e c (generated_contains acc e proof generated) in
      let same_leaf : leaf' ≡ leaf = cc in
      let same_proof : proof' ≡ proof = cc in
      let climbed : root ≡ recompute sha256 (index_of acc.leaves e) leaf proof = cc in
      rw (spelled, verify_loop-recompute (index_of acc.leaves e) leaf proof order, ← climbed)
        (ap ok (beq_refl root))

  module _ (acc : MerkleAccumulator) (e f : Text) (a b : Bytes) where
    pair_proof : acc.leaves ≡ (e, a) ∷ (f, b) ∷ [] → generate_proof sha256 acc e ≡ some (b ∷ [])
    unfolding generate_proof contains index_of values proof_loop level_siblings sibling_at
        next_level
    pair_proof two = rw (two, beq_refl e)

    pair_root :
        IsConsistent sha256 acc
        → acc.leaves ≡ (e, a) ∷ (f, b) ∷ []
        → acc.root ≡ computed (some (sha256 (a ++ b)))
    unfolding climb next_level values
    pair_root c two = elim c.rooted [ inl r ↦ r ∙ rw two | inr (u, none_yet) ↦ absurd (cc) ]

    pair_rejected :
        IsConsistent sha256 acc
        → acc.leaves ≡ (e, a) ∷ (f, b) ∷ []
        → blt a b ≡ false
        → sha256 (b ++ a) ≢ sha256 (a ++ b)
        → verify_proof sha256 e (b ∷ []) (sha256 (a ++ b)) ≡ ok false
    unfolding verify_proof verify_loop
    pair_rejected c two descending apart =
        let keyed : IsKeyed ((e, a) ∷ (f, b) ∷ []) = rw two at c.keyed in
        rw (keyed.1, descending) (ground (arith, beq_iff (sha256 (b ++ a)) (sha256 (a ++ b))))

  -- An accumulator of two elements whose first leaf is not the smaller one: `verifyProof` rejects
  -- the proof that `generateProof` returns for the first element, unless the two orders of the
  -- leaves have the same hash.
  pub verify_proof_descending :
      (acc : MerkleAccumulator) (e f : Text) (a b : Bytes)
      → IsConsistent sha256 acc
      → acc.leaves ≡ (e, a) ∷ (f, b) ∷ []
      → blt a b ≡ false
      → sha256 (b ++ a) ≢ sha256 (a ++ b)
      → (proof : List Bytes) × (root : Bytes) × (generate_proof sha256 acc e ≡ some proof)
        × (acc.root ≡ computed (some root))
        × (verify_proof sha256 e proof root ≡ ok false)
  verify_proof_descending acc e f a b c two descending apart = (
    b ∷ [],
    sha256 (a ++ b),
    pair_proof acc e f a b two,
    pair_root acc e f a b c two,
    pair_rejected acc e f a b c two descending apart,
  )
