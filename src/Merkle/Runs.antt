-- ===== src/Merkle/Runs.antt =====
-- Runs of the accumulator on small inputs, and its theorems at concrete inputs. The identity stands
-- for the hash function.
use zk_e_sim_smdp.Common.{◌≤◌, ◌^◌, ◌≡◌, refl, inl, true, false, some, List, [], ◌∷◌, length, arith}
use zk_e_sim_smdp.Common.Outcome.{ok, err, value_error}
use zk_e_sim_smdp.Common.Bytes.{Bytes, beq, blt}
use zk_e_sim_smdp.Common.Hex.{Text, from_hex}
use zk_e_sim_smdp.Merkle.{
  MerkleAccumulator, computed, init, contains, values, index_of, next_level, level_siblings,
  sibling_at, climb, compute_root, add, remove, proof_loop, generate_proof, verify_proof,
}
use zk_e_sim_smdp.Merkle.Root.{climb_total}
use zk_e_sim_smdp.Merkle.Proof.{recompute, length-proof_loop}
use zk_e_sim_smdp.Merkle.Accumulator.{IsConsistent, remove-add, generate_proof_recomputes}
use zk_e_sim_smdp.Merkle.Histories.{adding, removing, after_all, calls-IsConsistent}
use zk_e_sim_smdp.Merkle.Verify.{PathInOrder, verify_proof-generate_proof, verify_proof_descending}

abbrev plain : Bytes → Bytes
plain bs = bs

-- "02" and "01"
abbrev two : Text
two = 48 ∷ 50 ∷ []

abbrev one : Text
one = 48 ∷ 49 ∷ []

abbrev lone : MerkleAccumulator
lone = record { leaves = (two, 2 ∷ []) ∷ []; root = computed (some (2 ∷ [])) }

abbrev pair : MerkleAccumulator
pair = record { leaves = (two, 2 ∷ []) ∷ (one, 1 ∷ []) ∷ []; root = computed (some (2 ∷ 1 ∷ [])) }

add-lone : add plain init two ≡ ok lone
unfolding add compute_root contains values climb from_hex
add-lone = refl

add-pair : add plain lone one ≡ ok pair
unfolding add compute_root contains values climb next_level from_hex beq
add-pair = refl

add_bad : add plain lone (120 ∷ []) ≡ err value_error
unfolding add contains from_hex beq
add_bad = refl

IsConsistent-lone : IsConsistent plain lone
unfolding contains from_hex climb values
IsConsistent-lone = record { keyed = (refl, refl, tt); rooted = inl refl }

IsConsistent-pair : IsConsistent plain pair
unfolding contains from_hex climb values next_level beq
IsConsistent-pair = record { keyed = (refl, refl, (refl, refl, tt)); rooted = inl refl }

climb_total_example :
    (root : Bytes) × (climb plain 3 ((1 ∷ []) ∷ (2 ∷ []) ∷ (3 ∷ []) ∷ []) ≡ some root)
climb_total_example =
    climb_total plain 3 ((1 ∷ []) ∷ (2 ∷ []) ∷ (3 ∷ []) ∷ []) (omega arith) (λ e. cc)

length-proof_loop_example :
    3 ≤ 2 ^ length (proof_loop plain 3 ((1 ∷ []) ∷ (2 ∷ []) ∷ (3 ∷ []) ∷ []) 2)
length-proof_loop_example =
    length-proof_loop plain 3 2 ((1 ∷ []) ∷ (2 ∷ []) ∷ (3 ∷ []) ∷ []) (3 ∷ []) (omega arith) refl

-- Two elements are added, a text that is not hexadecimal is refused, and the first element is removed.
calls-IsConsistent_example :
    IsConsistent plain
      (after_all plain init (adding two ∷ adding one ∷ adding (120 ∷ []) ∷ removing two ∷ []))
calls-IsConsistent_example =
    calls-IsConsistent plain (adding two ∷ adding one ∷ adding (120 ∷ []) ∷ removing two ∷ [])

fresh : contains lone.leaves one ≡ false
unfolding contains beq
fresh = refl

present : contains pair.leaves one ≡ true
unfolding contains beq
present = refl

remove-add_example : remove plain pair one ≡ compute_root plain lone
remove-add_example = remove-add plain lone pair one fresh add-pair

generate_proof_recomputes_example :
    (leaf : Bytes) × (proof : List Bytes) × (from_hex one ≡ some leaf)
    × (generate_proof plain pair one ≡ some proof)
    × (pair.root ≡ computed (some (recompute plain (index_of pair.leaves one) leaf proof)))
generate_proof_recomputes_example =
    generate_proof_recomputes plain pair one IsConsistent-pair present

-- "01" and "02" in ascending order.
abbrev rising : MerkleAccumulator
rising = record { leaves = (one, 1 ∷ []) ∷ (two, 2 ∷ []) ∷ []; root = computed (some (1 ∷ 2 ∷ [])) }

IsConsistent-rising : IsConsistent plain rising
unfolding contains from_hex climb values next_level beq
IsConsistent-rising = record { keyed = (refl, refl, (refl, refl, tt)); rooted = inl refl }

rising_proof : generate_proof plain rising two ≡ some ((1 ∷ []) ∷ [])
unfolding generate_proof contains beq index_of values proof_loop level_siblings sibling_at
    next_level
rising_proof = refl

spelled : from_hex two ≡ some (2 ∷ [])
unfolding from_hex
spelled = refl

-- The sibling of the second leaf is on the left, and the smaller one.
rising_order : PathInOrder plain (index_of rising.leaves two) (2 ∷ []) ((1 ∷ []) ∷ [])
unfolding index_of beq blt
rising_order = (refl, tt)

verify_proof-generate_proof_example : verify_proof plain two ((1 ∷ []) ∷ []) (1 ∷ 2 ∷ []) ≡ ok true
verify_proof-generate_proof_example =
    verify_proof-generate_proof plain rising two (2 ∷ []) (1 ∷ 2 ∷ []) ((1 ∷ []) ∷ [])
      IsConsistent-rising spelled rising_proof refl rising_order

descending : blt (2 ∷ []) (1 ∷ []) ≡ false
unfolding blt
descending = refl

verify_proof_descending_example :
    (proof : List Bytes) × (root : Bytes) × (generate_proof plain pair two ≡ some proof)
    × (pair.root ≡ computed (some root))
    × (verify_proof plain two proof root ≡ ok false)
verify_proof_descending_example =
    verify_proof_descending plain pair two one (2 ∷ []) (1 ∷ []) IsConsistent-pair refl descending
      (λ e. cc)
