-- ===== src/Smdpp/Proofs.antt =====
-- The form of inclusion proofs, and the paths of profiles, in osmo-smdpp.py.
use zk_e_sim_smdp.Common.{
  ℕ, zero, suc, ◌*◌, ◌≤◌, true, List, [], ◌∷◌, ◌++◌, ◌≡◌, ◌↔◌, refl, sym, length, length-append,
  take-append, drop-append, join, All, arith,
}
use zk_e_sim_smdp.Common.Bytes.{Bytes}
use zk_e_sim_smdp.Common.Hex.{Text}
use zk_e_sim_smdp.Smdpp.Eligibility.{serialize_proof, chunks, deserialize_proof}
use zk_e_sim_smdp.Smdpp.Authenticate.Checks.{has_prefix}

length-join : (ps : List Bytes) → All (λ p. length p ≡ 32) ps → length (join ps) ≡ length ps * 32
length-join [] h = refl
length-join (p ∷ ps) (hp, hps) = omega (arith, length-append p (join ps), length-join ps hps)

chunks-join :
    (fuel : ℕ) (ps : List Bytes)
    → All (λ p. length p ≡ 32) ps
    → length ps ≤ fuel
    → chunks fuel (join ps) ≡ ps
unfolding chunks
chunks-join fuel [] h b = refl
chunks-join fuel ([] ∷ ps) (hp, hps) b = absurd (omega (arith, hp))
chunks-join zero ((x ∷ xs) ∷ ps) (hp, hps) b = absurd (omega (arith, b))
chunks-join (suc fuel) ((x ∷ xs) ∷ ps) (hp, hps) b =
    rw
      (
        take-append (x ∷ xs) (join ps) 32 (sym hp),
        drop-append (x ∷ xs) (join ps) 32 (sym hp),
        chunks-join fuel ps hps (omega (arith, b)),
      )
      refl

-- A proof of 32-byte hashes comes back from its serialized form.
pub deserialize_proof-serialize_proof :
    (proof : List Bytes)
    → All (λ p. length p ≡ 32) proof
    → deserialize_proof (serialize_proof proof) ≡ proof
unfolding deserialize_proof serialize_proof
deserialize_proof-serialize_proof proof h =
    let size = length-join proof h in
    ground (arith, size, chunks-join (length (join proof)) proof h (omega arith))

-- The check of a profile's path accepts exactly the texts that begin with the directory's
-- characters.
pub has_prefix_iff :
    (dir path : Text) → (has_prefix dir path ≡ true) ↔ ((rest : Text) × (path ≡ dir ++ rest))
unfolding has_prefix
has_prefix_iff [] path = (λ h. (path, refl), λ h. refl)
has_prefix_iff (c ∷ dir) [] = (λ h. absurd (cc), λ h. absurd (cc))
has_prefix_iff (c ∷ dir) (d ∷ path) = (
  λ h.
      let (rest, e) = (has_prefix_iff dir path).0 (ground (arith, h)) in
      (rest, ground (arith, h, e)),
  λ (rest, e). let more = (has_prefix_iff dir path).1 (rest, cc) in ground (arith, e, more),
)
