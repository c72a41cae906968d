-- ===== src/Smdpp/Eid/Runs.antt =====
-- The EID ranges of osmo-smdpp.py at a concrete input.
use zk_e_sim_smdp.Common.{true, some, [], ◌∷◌, ◌++◌, ◌≡◌, ◌↔◌, length, replicate}
use zk_e_sim_smdp.Common.Outcome.{ok, err, extension_not_found}
use zk_e_sim_smdp.Common.Hex.{Text}
use zk_e_sim_smdp.Utils.Strings.{upper}
use zk_e_sim_smdp.Smdpp.Eid.{
  EumExtensions, is_iin, parse_permitted_eins_from_cert, validate_eid_range,
}
use zk_e_sim_smdp.Smdpp.Eid.Ranges.{Among, validate_eid_range_iff}

-- A certificate that permits the IIN "00000000", and an EID of zeros.
abbrev eum : EumExtensions
eum = record {
  policies = ok ("2.23.146.1.2.1.0.0.0" ∷ []);
  permitted_eins = ok (replicate 8 48 ∷ []) ∷ [];
  permitted_subtrees = err extension_not_found;
}

abbrev zeros : Text
zeros = replicate 32 48

validate_eid_range_iff_example : (validate_eid_range (some zeros) eum ≡ true) ↔ (
    (length zeros ≡ 32)
    × ((iin : Text) × (rest : Text) × Among iin (parse_permitted_eins_from_cert eum)
        × (is_iin iin ≡ true)
        × (upper zeros ≡ iin ++ rest)))
validate_eid_range_iff_example = validate_eid_range_iff zeros eum
