-- ===== src/Merkle/Proof.antt =====
-- What `generateProof` returns, checked by an independent reader of proofs that knows the position
-- of the leaf: at an even position the current hash goes first, at an odd one the sibling does.
use zk_e_sim_smdp.Common.{
  ℕ, zero, suc, ◌+◌, ◌/◌, ◌%◌, ◌^◌, ◌≤◌, ◌<◌, ◌≡◌, refl, some, List, [], ◌∷◌, ◌++◌, length,
  get_elem?, ◌==◌, if◌then◌else◌, arith,
}
use native.Mathlib.Nat.{zero-add, pow-suc}
use zk_e_sim_smdp.Common.Bytes.{Bytes}
use zk_e_sim_smdp.Merkle.{sibling_at, level_siblings, next_level, climb, proof_loop}
use zk_e_sim_smdp.Merkle.Root.{length-next_level}

sibling_here : (i : ℕ) (l r : Bytes) → sibling_at i (i + 0) l r ≡ r ∷ []
unfolding sibling_at
sibling_here i l r = ground arith

sibling_next : (i : ℕ) (l r : Bytes) → sibling_at i (i + 1) l r ≡ l ∷ []
unfolding sibling_at
sibling_next i l r = ground arith

sibling_elsewhere : (i j : ℕ) (l r : Bytes) → sibling_at i (i + suc (suc j)) l r ≡ []
unfolding sibling_at
sibling_elsewhere i j l r = ground arith

sibling_passed : (i index : ℕ) (l r : Bytes) → index < i → sibling_at i index l r ≡ []
unfolding sibling_at
sibling_passed i index l r h = ground arith

-- Behind the pair that holds the index nothing more is appended.
level_siblings_passed :
    (i index : ℕ) (nodes : List Bytes) → index < i → level_siblings i nodes index ≡ []
unfolding level_siblings
level_siblings_passed i index [] h = refl
level_siblings_passed i index (l ∷ []) h = sibling_passed i index l l h
level_siblings_passed i index (l ∷ r ∷ ns) h =
    rw (sibling_passed i index l r h) (level_siblings_passed (i + 2) index ns (omega arith))

module _ (sha256 : Bytes → Bytes) where
  -- The parent of a node and its sibling, from the node's position.
  unfoldable pub parent : ℕ → Bytes → Bytes → Bytes
  parent index current sibling =
      if index % 2 == 0 then sha256 (current ++ sibling) else sha256 (sibling ++ current)

  -- The root that a proof leads to, from the position of the leaf.
  unfoldable pub recompute : ℕ → Bytes → List Bytes → Bytes
  recompute index current [] = current
  recompute index current (sibling ∷ proof) =
      recompute (index / 2) (parent index current sibling) proof

  -- Two positions further on a level is one position further on the next.
  two_on_level :
      (j : ℕ) (leaf s first : Bytes) (rest : List Bytes)
      → get_elem? rest (j / 2) ≡ some (parent j leaf s)
      → get_elem? (first ∷ rest) (suc (suc j) / 2) ≡ some (parent (suc (suc j)) leaf s)
  unfolding parent
  two_on_level j leaf s first rest p =
      let half : suc (suc j) / 2 ≡ suc (j / 2) = omega arith in
      let parity : suc (suc j) % 2 ≡ j % 2 = omega arith in rw (half, parity) p

  -- On one level there is one sibling, and its parent with the node stands on the next level.
  level_step :
      (i j : ℕ) (nodes : List Bytes) (leaf : Bytes)
      → get_elem? nodes j ≡ some leaf
      → (s : Bytes) × (level_siblings i nodes (i + j) ≡ s ∷ [])
        × (get_elem? (next_level sha256 nodes) (j / 2) ≡ some (parent j leaf s))
  unfolding level_siblings next_level parent
  level_step i j [] leaf h = absurd (cc)
  level_step i zero (l ∷ []) leaf h = (l, sibling_here i l l, cc)
  level_step i (suc j) (l ∷ []) leaf h = absurd (cc)
  level_step i zero (l ∷ r ∷ ns) leaf h =
      (r, rw (sibling_here i l r, level_siblings_passed (i + 2) (i + 0) ns (omega arith)), cc)
  level_step i (suc zero) (l ∷ r ∷ ns) leaf h =
      (l, rw (sibling_next i l r, level_siblings_passed (i + 2) (i + 1) ns (omega arith)), cc)
  level_step i (suc (suc j)) (l ∷ r ∷ ns) leaf h =
      let (s, e, p) = level_step (i + 2) j ns leaf h in
      let shift : i + suc (suc j) ≡ (i + 2) + j = omega arith in
      (
        s,
        rw (sibling_elsewhere i j l r, shift) e,
        two_on_level j leaf s (sha256 (l ++ r)) (next_level sha256 ns) p,
      )

  -- The generated proof leads from the leaf at its position to the root that `_compute_root` finds.
  pub recompute-proof_loop :
      (fuel index : ℕ) (nodes : List Bytes) (leaf : Bytes)
      → length nodes ≤ fuel
      → get_elem? nodes index ≡ some leaf
      → climb sha256 fuel nodes ≡ some (recompute index leaf (proof_loop sha256 fuel nodes index))
  unfolding climb proof_loop recompute
  recompute-proof_loop fuel index [] leaf h e = absurd (cc)
  recompute-proof_loop fuel zero (n ∷ []) leaf h e = e
  recompute-proof_loop fuel (suc index) (n ∷ []) leaf h e = absurd (cc)
  recompute-proof_loop zero index (n ∷ m ∷ ns) leaf h e = absurd (omega arith)
  recompute-proof_loop (suc fuel) index (n ∷ m ∷ ns) leaf h e =
      let (s, one, up) = level_step 0 index (n ∷ m ∷ ns) leaf e in
      let at_zero : level_siblings 0 (n ∷ m ∷ ns) index ≡ s ∷ [] = rw zero-add at one in
      rw at_zero (
        recompute-proof_loop fuel (index / 2) (next_level sha256 (n ∷ m ∷ ns)) (parent index leaf s)
          (omega (arith, length-next_level sha256 (n ∷ m ∷ ns))) up)

  -- A proof has one sibling for each level, and so at least the logarithm of the number of leaves.
  pub length-proof_loop :
      (fuel index : ℕ) (nodes : List Bytes) (leaf : Bytes)
      → length nodes ≤ fuel
      → get_elem? nodes index ≡ some leaf
      → length nodes ≤ 2 ^ length (proof_loop sha256 fuel nodes index)
  unfolding proof_loop
  length-proof_loop fuel index [] leaf h e = absurd (cc)
  length-proof_loop fuel index (n ∷ []) leaf h e = omega arith
  length-proof_loop zero index (n ∷ m ∷ ns) leaf h e = absurd (omega arith)
  length-proof_loop (suc fuel) index (n ∷ m ∷ ns) leaf h e =
      let (s, one, up) = level_step 0 index (n ∷ m ∷ ns) leaf e in
      let at_zero : level_siblings 0 (n ∷ m ∷ ns) index ≡ s ∷ [] = rw zero-add at one in
      let next : List Bytes = next_level sha256 (n ∷ m ∷ ns) in
      let half : length next ≡ (length (n ∷ m ∷ ns) + 1) / 2 =
        length-next_level sha256 (n ∷ m ∷ ns) in
      let deeper : length next ≤ 2 ^ length (proof_loop sha256 fuel next (index / 2)) =
        length-proof_loop fuel (index / 2) next (parent index leaf s) (omega arith) up in
      rw (at_zero, pow-suc) (omega arith)
