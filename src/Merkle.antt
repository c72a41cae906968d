-- ===== src/Merkle.antt =====
-- `MerkleAccumulator` of pySim/esim/rsp.py. A dict is the list of its items in order of insertion;
-- the hash function (SHA-256 of the package `cryptography`) is a parameter.
pub mod Root
pub mod Proof
pub mod Accumulator
pub mod Histories
pub mod Verify
mod Runs
use mathlib.Core.Bool.{cond}
use zk_e_sim_smdp.Common.{
  ℕ, zero, suc, ◌+◌, ◌/◌, Bool, true, false, ◌&&◌, ◌||◌, Option, none, some, List, [], ◌∷◌, ◌++◌,
  map, length, ltb, leb, ◌==◌, if◌then◌else◌,
}
use zk_e_sim_smdp.Common.Outcome.{Outcome, ok, err, value_error, expect, ◌>>=◌}
use zk_e_sim_smdp.Common.Bytes.{Bytes, beq, blt}
use zk_e_sim_smdp.Common.Hex.{Text, from_hex}

abbrev pub Leaves : Type 0
Leaves = List (Text × Bytes)

-- `self.root`: `[]` at first, and afterwards what `_compute_root` put there, None or a hash.
pub data RootState : Type 0 where
  unset : RootState
  computed : Option Bytes → RootState

pub record MerkleAccumulator : Type 0 where
  pub leaves : Leaves
  pub root : RootState

abbrev pub init : MerkleAccumulator
init = record { leaves = []; root = unset }

-- `list(self.leaves.values())`
unfoldable pub values : Leaves → List Bytes
values [] = []
values ((k, v) ∷ l) = v ∷ values l

-- `element in self.leaves`
unfoldable pub contains : Leaves → Text → Bool
contains [] e = false
contains ((k, v) ∷ l) e = beq k e || contains l e

-- `list(self.leaves.keys()).index(element)`, which is asked only of a key that is there
unfoldable pub index_of : Leaves → Text → ℕ
index_of [] e = 0
index_of ((k, v) ∷ l) e = let later = suc (index_of l e) in if beq k e then 0 else later

-- `del self.leaves[element]`
unfoldable pub delete : Leaves → Text → Leaves
delete [] e = []
delete ((k, v) ∷ l) e = let rest = delete l e in if beq k e then rest else (k, v) ∷ rest

-- What one pass of the inner loop of `generateProof` appends at the pair that starts at `i`.
unfoldable pub sibling_at : ℕ → ℕ → Bytes → Bytes → List Bytes
sibling_at i index left right =
    if leb i index && ltb index (i + 2) then (if i == index then right else left) ∷ [] else []

-- The siblings that the inner loop of `generateProof` appends on one level, from position `i` on.
unfoldable pub level_siblings : ℕ → List Bytes → ℕ → List Bytes
unfolding sibling_at
level_siblings i [] index = []
level_siblings i (left ∷ []) index = sibling_at i index left left
level_siblings i (left ∷ right ∷ rest) index =
    sibling_at i index left right ++ level_siblings (i + 2) rest index

module _ (sha256 : Bytes → Bytes) where
  -- `hash_fn`
  abbrev pub hash_fn : Bytes → Bytes
  hash_fn input = sha256 input

  -- The inner loop: the hashes of the pairs, where an odd last node is paired with itself.
  unfoldable pub next_level : List Bytes → List Bytes
  next_level [] = []
  next_level (left ∷ []) = hash_fn (left ++ left) ∷ []
  next_level (left ∷ right ∷ rest) = hash_fn (left ++ right) ∷ next_level rest

  -- The loop of `_compute_root` and `nodes[0]` behind it; without nodes the root is None.
  unfoldable pub climb : ℕ → List Bytes → Option Bytes
  climb fuel [] = none
  climb fuel (n ∷ []) = some n
  climb zero (n ∷ m ∷ ns) = none
  climb (suc fuel) (n ∷ m ∷ ns) = climb fuel (next_level (n ∷ m ∷ ns))

  unfoldable pub compute_root : MerkleAccumulator → MerkleAccumulator
  compute_root acc =
      let nodes = values acc.leaves in record acc { root = computed (climb (length nodes) nodes) }

  unfoldable pub add : MerkleAccumulator → Text → Outcome MerkleAccumulator
  add acc element = if contains acc.leaves element then ok acc else do
    leaf_hash ← expect (from_hex element) value_error
    ok (compute_root (record acc { leaves = acc.leaves ++ (element, leaf_hash) ∷ [] }))

  unfoldable pub remove : MerkleAccumulator → Text → MerkleAccumulator
  remove acc element =
      if contains acc.leaves element
      then compute_root (record acc { leaves = delete acc.leaves element })
      else acc

  -- The loop of `generateProof`.
  unfoldable pub proof_loop : ℕ → List Bytes → ℕ → List Bytes
  proof_loop fuel [] index = []
  proof_loop fuel (n ∷ []) index = []
  proof_loop zero (n ∷ m ∷ ns) index = []
  proof_loop (suc fuel) (n ∷ m ∷ ns) index =
      level_siblings 0 (n ∷ m ∷ ns) index ++ proof_loop fuel (next_level (n ∷ m ∷ ns)) (index / 2)

  unfoldable pub generate_proof : MerkleAccumulator → Text → Option (List Bytes)
  generate_proof acc element =
      let nodes = values acc.leaves in
      if contains acc.leaves element
      then some (proof_loop (length nodes) nodes (index_of acc.leaves element))
      else none

  -- The loop of `verifyProof`: the smaller of the two hashes goes first.
  unfoldable pub verify_loop : Bytes → List Bytes → Bytes
  verify_loop current [] = current
  verify_loop current (sibling ∷ proof) =
      verify_loop
        (if blt current sibling then hash_fn (current ++ sibling) else hash_fn (sibling ++ current))
        proof

  unfoldable pub verify_proof : Text → List Bytes → Bytes → Outcome Bool
  verify_proof element proof root = do
    current ← expect (from_hex element) value_error
    ok (beq (verify_loop current proof) root)
