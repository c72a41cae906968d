-- ===== src/Smdpp/Eid/Ranges.antt =====
-- Which EIDs osmo-smdpp.py permits.
use zk_e_sim_smdp.Common.{
  ◌≡◌, ◌↔◌, ◌⊎◌, inl, inr, refl, ap, ◌∙◌, Bool, true, false, some, List, [], ◌∷◌, ◌++◌, length, All,
  All-append, ◌==◌, ==_iff, Bool-cases, arith,
}
use zk_e_sim_smdp.Common.Outcome.{Outcome, ok, err}
use zk_e_sim_smdp.Common.Hex.{Text}
use zk_e_sim_smdp.Smdpp.Authenticate.Checks.{has_prefix}
use zk_e_sim_smdp.Smdpp.Proofs.{has_prefix_iff}
use zk_e_sim_smdp.Utils.Strings.{is_white, strip, upper}
use zk_e_sim_smdp.Smdpp.Eid.{
  EumExtensions, Variant, old, new, unknown, get_eum_certificate_variant, is_iin, clean_iins,
  parse_gsma_permitted_eins, serial_iins, subtree_iins, parse_name_constraints_eins, by_variant,
  parse_permitted_eins_from_cert, any_prefix, validate_eid_range,
}

IsIin : Text → Type 0
IsIin iin = is_iin iin ≡ true

clean_iins-IsIin : (ts : List Text) → All IsIin (clean_iins ts)
unfolding clean_iins IsIin
clean_iins-IsIin [] = tt
clean_iins-IsIin (t ∷ ts) = elim (Bool-cases (is_iin (upper (strip is_white t)))) [
  | inl good ↦ rw good (good, clean_iins-IsIin ts)
  | inr bad ↦ rw bad (clean_iins-IsIin ts)
]

gsma-IsIin : (exts : List (Outcome (List Text))) → All IsIin (parse_gsma_permitted_eins exts)
unfolding parse_gsma_permitted_eins
gsma-IsIin [] = tt
gsma-IsIin (ok strings ∷ exts) =
    All-append IsIin (clean_iins strings) (parse_gsma_permitted_eins exts)
      (clean_iins-IsIin strings) (gsma-IsIin exts)
gsma-IsIin (err e ∷ exts) = gsma-IsIin exts

serial-IsIin : (attributes : List (Bool × Text)) → All IsIin (serial_iins attributes)
unfolding serial_iins IsIin
serial-IsIin [] = tt
serial-IsIin ((false, value) ∷ attributes) = serial-IsIin attributes
serial-IsIin ((true, value) ∷ attributes) = elim (Bool-cases (is_iin (upper value))) [
  | inl good ↦ rw good (good, serial-IsIin attributes)
  | inr bad ↦ rw bad (serial-IsIin attributes)
]

subtrees-IsIin : (names : List (List (Bool × Text))) → All IsIin (subtree_iins names)
unfolding subtree_iins
subtrees-IsIin [] = tt
subtrees-IsIin (name ∷ names) =
    All-append IsIin (serial_iins name) (subtree_iins names) (serial-IsIin name)
      (subtrees-IsIin names)

constraints-IsIin :
    (r : Outcome (List (List (Bool × Text)))) → All IsIin (parse_name_constraints_eins r)
unfolding parse_name_constraints_eins
constraints-IsIin (ok names) = subtrees-IsIin names
constraints-IsIin (err e) = tt

variant-IsIin : (v : Variant) (cert : EumExtensions) → All IsIin (by_variant v cert)
variant-IsIin old cert = constraints-IsIin cert.permitted_subtrees
variant-IsIin new cert = gsma-IsIin cert.permitted_eins
variant-IsIin unknown cert = gsma-IsIin cert.permitted_eins

-- A text is one of some texts.
unfoldable pub Among : Text → List Text → Type 0
Among t [] = ⊥
Among t (x ∷ xs) = (t ≡ x) ⊎ Among t xs

any_prefix_found :
    (iins : List Text) (eid : Text)
    → any_prefix iins eid ≡ true
    → All IsIin iins
    → (iin : Text) × (rest : Text) × Among iin iins × IsIin iin × (eid ≡ iin ++ rest)
unfolding any_prefix Among
any_prefix_found [] eid h good = absurd (cc)
any_prefix_found (iin ∷ iins) eid h (good, more) = elim (Bool-cases (has_prefix iin eid)) [
  | inl found ↦ let (rest, is) = (has_prefix_iff iin eid).0 found in (iin, rest, inl refl, good, is)
  | inr other ↦
      let (i, rest, among, is_good, is) = any_prefix_found iins eid (rw other at h) more in
      (i, rest, inr among, is_good, is)
]

found_any_prefix :
    (iins : List Text) (eid iin rest : Text)
    → Among iin iins
    → eid ≡ iin ++ rest
    → any_prefix iins eid ≡ true
unfolding any_prefix Among
found_any_prefix [] eid iin rest among is = absurd among
found_any_prefix (x ∷ iins) eid iin rest (inl same) is =
    let found : has_prefix x eid ≡ true =
      (has_prefix_iff x eid).1 (rest, is ∙ ap (λ (t : Text). t ++ rest) same) in
    rw found refl
found_any_prefix (x ∷ iins) eid iin rest (inr later) is =
    ground (arith, found_any_prefix iins eid iin rest later is)

-- An EID is in range exactly when it has 32 characters and, in upper case, begins with an IIN that
-- the certificate permits, which is one of eight upper-case hexadecimal digits.
pub validate_eid_range_iff :
    (eid : Text) (cert : EumExtensions)
    → (validate_eid_range (some eid) cert ≡ true) ↔ (
        (length eid ≡ 32)
        × ((iin : Text) × (rest : Text) × Among iin (parse_permitted_eins_from_cert cert)
            × (is_iin iin ≡ true)
            × (upper eid ≡ iin ++ rest)))
unfolding validate_eid_range IsIin
validate_eid_range_iff eid cert =
    let iins = parse_permitted_eins_from_cert cert in
    let good : All IsIin iins =
      unfold parse_permitted_eins_from_cert in
      variant-IsIin (get_eum_certificate_variant cert) cert in
    (
      λ h.
          let size : (length eid == 32) ≡ true = ground (arith, h) in
          let found : any_prefix iins (upper eid) ≡ true = ground (arith, h) in
          ((==_iff (length eid) 32).0 size, any_prefix_found iins (upper eid) found good),
      λ (size, (iin, rest, among, is_good, is)).
          let found = found_any_prefix iins (upper eid) iin rest among is in
          rw ((==_iff (length eid) 32).1 size, found) refl,
    )
