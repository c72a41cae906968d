-- ===== src/Merkle/Root.antt =====
-- The loop of `_compute_root` ends, and yields a root exactly when there are leaves.
use zk_e_sim_smdp.Common.{
  ℕ, zero, suc, ◌+◌, ◌/◌, ◌≤◌, ◌≡◌, refl, ◌≢◌, some, List, [], ◌∷◌, length, arith,
}
use zk_e_sim_smdp.Common.Bytes.{Bytes}
use zk_e_sim_smdp.Merkle.{next_level, climb}

module _ (sha256 : Bytes → Bytes) where
  -- A level has half as many nodes, rounded up.
  pub length-next_level :
      (nodes : List Bytes) → length (next_level sha256 nodes) ≡ (length nodes + 1) / 2
  unfolding next_level
  length-next_level [] = omega arith
  length-next_level (n ∷ []) = omega arith
  length-next_level (n ∷ m ∷ ns) = omega (arith, length-next_level ns)

  next_level-ne-nil : (n : Bytes) (ns : List Bytes) → next_level sha256 (n ∷ ns) ≢ []
  unfolding next_level
  next_level-ne-nil n [] e = cc
  next_level-ne-nil n (m ∷ ns) e = cc

  -- With as much fuel as there are nodes, and at least one node, the loop ends in a root.
  pub climb_total :
      (fuel : ℕ) (nodes : List Bytes)
      → length nodes ≤ fuel
      → nodes ≢ []
      → (root : Bytes) × (climb sha256 fuel nodes ≡ some root)
  unfolding climb
  climb_total fuel [] h k = absurd (k refl)
  climb_total fuel (n ∷ []) h k = (n, refl)
  climb_total zero (n ∷ m ∷ ns) h k = absurd (omega arith)
  climb_total (suc fuel) (n ∷ m ∷ ns) h k =
      climb_total fuel (next_level sha256 (n ∷ m ∷ ns))
        (omega (arith, length-next_level (n ∷ m ∷ ns))) (next_level-ne-nil n (m ∷ ns))
