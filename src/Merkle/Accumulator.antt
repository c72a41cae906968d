-- ===== src/Merkle/Accumulator.antt =====
-- The accumulator's invariant, kept by `add` and `remove`, and the proofs of its elements.
use zk_e_sim_smdp.Common.{
  ◌≡◌, refl, ◌⊎◌, inl, inr, true, false, ◌||◌, Option, some, List, [], ◌∷◌, ◌++◌, length, get_elem?,
  arith, ap, sym, ◌∙◌, Bool-cases, Option-cases,
}
use zk_e_sim_smdp.Common.Outcome.{Outcome, ok}
use zk_e_sim_smdp.Common.Bytes.{Bytes, beq, beq_iff, beq→eq, beq_refl}
use zk_e_sim_smdp.Common.Hex.{Text, from_hex}
use mathlib.Core.Path.{subst}
use native.Mathlib.Nat.{le_refl}
use zk_e_sim_smdp.Merkle.{
  Leaves, MerkleAccumulator, unset, computed, init, values, contains, index_of, delete, climb,
  compute_root, add, remove, generate_proof, proof_loop,
}
use zk_e_sim_smdp.Merkle.Proof.{recompute, recompute-proof_loop}

-- Each key stands once, and beside it the bytes that it spells.
abbrev pub IsKeyed : Leaves → Type 0
IsKeyed [] = Unit
IsKeyed ((k, v) ∷ l) = (contains l k ≡ false) × (from_hex k ≡ some v) × IsKeyed l

contains-append :
    (l : Leaves) (k e : Text) (v : Bytes)
    → contains (l ++ (k, v) ∷ []) e ≡ (contains l e || beq k e)
unfolding contains
contains-append [] k e v = ground arith
contains-append ((j, w) ∷ l) k e v = ground (arith, contains-append l k e v)

IsKeyed-append :
    (l : Leaves) (k : Text) (v : Bytes)
    → IsKeyed l
    → contains l k ≡ false
    → from_hex k ≡ some v
    → IsKeyed (l ++ (k, v) ∷ [])
unfolding contains
IsKeyed-append [] k v h fresh e = (refl, e, tt)
IsKeyed-append ((j, w) ∷ l) k v (hj, hv, hl) fresh e = (
  rw contains-append (ground (arith, beq_iff j k, beq_iff k j)),
  hv,
  IsKeyed-append l k v hl (ground arith) e,
)

contains-delete : (l : Leaves) (k e : Text) → contains l e ≡ false → contains (delete l k) e ≡ false
unfolding contains delete
contains-delete [] k e h = h
contains-delete ((j, w) ∷ l) k e h = ground (arith, contains-delete l k e)

IsKeyed-delete : (l : Leaves) (k : Text) → IsKeyed l → IsKeyed (delete l k)
unfolding delete
IsKeyed-delete [] k h = h
IsKeyed-delete ((j, w) ∷ l) k (hj, hv, hl) = elim (Bool-cases (beq j k)) [
  | inl same ↦ rw same (IsKeyed-delete l k hl)
  | inr other ↦ rw other (contains-delete l k j hj, hv, IsKeyed-delete l k hl)
]

-- A key that is there has its leaf at the index that `generateProof` computes.
get_elem?-index_of :
    (l : Leaves) (e : Text)
    → IsKeyed l
    → contains l e ≡ true
    → (leaf : Bytes) × (from_hex e ≡ some leaf) × (get_elem? (values l) (index_of l e) ≡ some leaf)
unfolding contains values index_of
get_elem?-index_of [] e h m = absurd (cc)
get_elem?-index_of ((k, v) ∷ l) e (hk, hv, hl) m = elim (Bool-cases (beq k e)) [
  | inl same ↦ (v, rw (← beq→eq k e same) hv, rw same refl)
  | inr other ↦
      let later : contains l e ≡ true = rw other at m in
      let (leaf, spelled, found) = get_elem?-index_of l e hl later in
      (leaf, spelled, rw other found)
]

delete-append_fresh :
    (l : Leaves) (k : Text) (v : Bytes) → contains l k ≡ false → delete (l ++ (k, v) ∷ []) k ≡ l
unfolding contains delete
delete-append_fresh [] k v h = rw (beq_refl k)
delete-append_fresh ((j, w) ∷ l) k v h = ground (arith, delete-append_fresh l k v)

ok_injective : {a b : MerkleAccumulator} → ◌≡◌ {A = Outcome MerkleAccumulator} (ok a) (ok b) → a ≡ b
ok_injective h = cc

module _ (sha256 : Bytes → Bytes) where
  abbrev pub root_of : Leaves → Option Bytes
  root_of l = climb sha256 (length (values l)) (values l)

  -- The leaves are keyed, and the root is the one of the leaves or, before the first `add`, unset.
  pub record IsConsistent (acc : MerkleAccumulator) : Type 0 where
    pub keyed : IsKeyed acc.leaves
    pub rooted :
        (acc.root ≡ computed (root_of acc.leaves)) ⊎ ((acc.root ≡ unset) × (acc.leaves ≡ []))

  pub IsConsistent-init : IsConsistent init
  IsConsistent-init = record { keyed = tt; rooted = inr (refl, refl) }

  -- What a successful `add` did: nothing, or it appended the leaf and computed the root.
  add_cases :
      (acc acc' : MerkleAccumulator) (e : Text)
      → add sha256 acc e ≡ ok acc'
      → ((contains acc.leaves e ≡ true) × (acc ≡ acc'))
        ⊎ ((leaf : Bytes) × (contains acc.leaves e ≡ false)
            × (from_hex e ≡ some leaf)
            × (acc'.leaves ≡ acc.leaves ++ (e, leaf) ∷ [])
            × (acc'.root ≡ computed (root_of acc'.leaves)))
  unfolding add compute_root
  add_cases acc acc' e h = elim (Bool-cases (contains acc.leaves e)) [
    | inl old ↦ inl (old, ok_injective (rw old at h))
    | inr new ↦ elim (Option-cases (from_hex e)) [
      | inl bad ↦ absurd (cc (rw (new, bad) at h))
      | inr (leaf, good) ↦
          let same = ok_injective (rw (new, good) at h) in
          inr (leaf, new, good, ap (λ (a : MerkleAccumulator). a.leaves) (sym same), rw (← same))
    ]
  ]

  -- `add` keeps the accumulator consistent, whether the element is new or was there before.
  pub add-IsConsistent :
      (acc acc' : MerkleAccumulator) (e : Text)
      → IsConsistent acc
      → add sha256 acc e ≡ ok acc'
      → IsConsistent acc'
  add-IsConsistent acc acc' e c h = elim (add_cases acc acc' e h) [
    | inl (old, same) ↦ subst (λ a. IsConsistent a) same c
    | inr (leaf, new, good, leaves, root) ↦ record {
      keyed = rw leaves (IsKeyed-append acc.leaves e leaf c.keyed new good);
      rooted = inl root;
    }
  ]

  -- `remove` keeps the accumulator consistent.
  pub remove-IsConsistent :
      (acc : MerkleAccumulator) (e : Text) → IsConsistent acc → IsConsistent (remove sha256 acc e)
  unfolding remove compute_root
  remove-IsConsistent acc e c = elim (Bool-cases (contains acc.leaves e)) [
    | inl old ↦ rw old (record { keyed = IsKeyed-delete acc.leaves e c.keyed; rooted = inl refl })
    | inr new ↦ rw new c
  ]

  -- After an `add` the element is in the accumulator.
  pub contains-add :
      (acc acc' : MerkleAccumulator) (e : Text)
      → add sha256 acc e ≡ ok acc'
      → contains acc'.leaves e ≡ true
  contains-add acc acc' e h = elim (add_cases acc acc' e h) [
    | inl (old, same) ↦ subst (λ a. contains a.leaves e ≡ true) same old
    | inr (leaf, new, good, leaves, root) ↦
        rw leaves (rw contains-append (ground (arith, beq_refl e)))
  ]

  -- To remove an element that was just added, and was not there before, gives the leaves back, with
  -- the root computed.
  pub remove-add :
      (acc acc' : MerkleAccumulator) (e : Text)
      → contains acc.leaves e ≡ false
      → add sha256 acc e ≡ ok acc'
      → remove sha256 acc' e ≡ compute_root sha256 acc
  remove-add acc acc' e fresh h = elim (add_cases acc acc' e h) [
    | inl (old, same) ↦ absurd (cc)
    | inr (leaf, new, good, leaves, root) ↦
        let back : delete acc'.leaves e ≡ acc.leaves =
          rw leaves (delete-append_fresh acc.leaves e leaf fresh) in
        unfold remove compute_root in rw (contains-add acc acc' e h, back)
  ]

  rooted_at :
      (acc : MerkleAccumulator) (e : Text)
      → IsConsistent acc
      → contains acc.leaves e ≡ true
      → acc.root ≡ computed (root_of acc.leaves)
  unfolding contains
  rooted_at acc e c m = elim c.rooted [
    | inl r ↦ r
    | inr (u, none_yet) ↦ absurd (cc (subst (λ l. contains l e ≡ true) none_yet m))
  ]

  -- For each element of a consistent accumulator `generateProof` returns a proof, and the proof
  -- leads from the element's bytes, at the element's position, to the accumulator's root.
  pub generate_proof_recomputes :
      (acc : MerkleAccumulator) (e : Text)
      → IsConsistent acc
      → contains acc.leaves e ≡ true
      → (leaf : Bytes) × (proof : List Bytes) × (from_hex e ≡ some leaf)
        × (generate_proof sha256 acc e ≡ some proof)
        × (acc.root ≡ computed (some (recompute sha256 (index_of acc.leaves e) leaf proof)))
  generate_proof_recomputes acc e c m =
      let (leaf, spelled, found) = get_elem?-index_of acc.leaves e c.keyed m in
      let nodes : List Bytes = values acc.leaves in
      let proof : List Bytes = proof_loop sha256 (length nodes) nodes (index_of acc.leaves e) in
      (
        leaf,
        proof,
        spelled,
        unfold generate_proof in rw m,
        rooted_at acc e c m
            ∙ ap computed (
                recompute-proof_loop sha256 (length nodes) (index_of acc.leaves e) nodes leaf
                  (le_refl _) found),
      )
