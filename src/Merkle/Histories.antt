-- ===== src/Merkle/Histories.antt =====
-- `MerkleAccumulator` of pySim/esim/rsp.py under any sequence of calls.
use zk_e_sim_smdp.Common.{List, [], ◌∷◌, ◌≡◌, refl}
use zk_e_sim_smdp.Common.Outcome.{Outcome, ok, err}
use zk_e_sim_smdp.Common.Bytes.{Bytes}
use zk_e_sim_smdp.Common.Hex.{Text}
use zk_e_sim_smdp.Merkle.{MerkleAccumulator, init, add, remove}
use zk_e_sim_smdp.Merkle.Accumulator.{
  IsConsistent, IsConsistent-init, add-IsConsistent, remove-IsConsistent,
}

-- A call that changes the accumulator.
pub data Call : Type 0 where
  adding : Text → Call
  removing : Text → Call

module _ (sha256 : Bytes → Bytes) where
  -- What a call of `add` leaves behind: one that raises changes nothing.
  unfoldable pub kept : MerkleAccumulator → Outcome MerkleAccumulator → MerkleAccumulator
  kept acc (ok acc') = acc'
  kept acc (err raised) = acc

  unfoldable pub after : MerkleAccumulator → Call → MerkleAccumulator
  unfolding kept
  after acc (adding e) = kept acc (add sha256 acc e)
  after acc (removing e) = remove sha256 acc e

  unfoldable pub after_all : MerkleAccumulator → List Call → MerkleAccumulator
  unfolding after
  after_all acc [] = acc
  after_all acc (c ∷ calls) = after_all (after acc c) calls

  kept-IsConsistent :
      (acc : MerkleAccumulator) (e : Text) (res : Outcome MerkleAccumulator)
      → IsConsistent sha256 acc
      → add sha256 acc e ≡ res
      → IsConsistent sha256 (kept acc res)
  unfolding kept
  kept-IsConsistent acc e (ok acc') c h = add-IsConsistent sha256 acc acc' e c h
  kept-IsConsistent acc e (err raised) c h = c

  after-IsConsistent :
      (acc : MerkleAccumulator) (call : Call)
      → IsConsistent sha256 acc
      → IsConsistent sha256 (after acc call)
  unfolding after
  after-IsConsistent acc (adding e) c = kept-IsConsistent acc e (add sha256 acc e) c refl
  after-IsConsistent acc (removing e) c = remove-IsConsistent sha256 acc e c

  after_all-IsConsistent :
      (acc : MerkleAccumulator) (calls : List Call)
      → IsConsistent sha256 acc
      → IsConsistent sha256 (after_all acc calls)
  unfolding after_all
  after_all-IsConsistent acc [] c = c
  after_all-IsConsistent acc (call ∷ calls) c =
      after_all-IsConsistent (after acc call) calls (after-IsConsistent acc call c)

  -- After any calls of add and remove, the refused ones included, an accumulator that began empty is
  -- consistent: its leaves are keyed by their spelling, and its root is the one of the leaves, or unset
  -- where there was none.
  pub calls-IsConsistent : (calls : List Call) → IsConsistent sha256 (after_all init calls)
  calls-IsConsistent calls = after_all-IsConsistent init calls (IsConsistent-init sha256)
