-- ===== src/Smdpp/Oid/Runs.antt =====
-- Object identifiers at a concrete input: `2.999.10`, with which osmo-smdpp.py tests its decoder.
use zk_e_sim_smdp.Common.{◌≡◌, refl, [], ◌∷◌, arith}
use zk_e_sim_smdp.Common.Outcome.{ok}
use zk_e_sim_smdp.Smdpp.Oid.{decode_object_identifier, dotted}
use zk_e_sim_smdp.Smdpp.Oid.RoundTrip.{encode, decode_object_identifier-encode}

encoded : encode 2 999 (10 ∷ []) ≡ 136 ∷ 55 ∷ 10 ∷ []
unfolding encode
encoded = refl

decoded :
    decode_object_identifier (136 ∷ 55 ∷ 10 ∷ []) 4 7
    ≡ ok (50 ∷ 46 ∷ 57 ∷ 57 ∷ 57 ∷ 46 ∷ 49 ∷ 48 ∷ [])
unfolding decode_object_identifier
decoded = refl

decode_object_identifier-encode_example :
    decode_object_identifier (136 ∷ 55 ∷ 10 ∷ 5 ∷ []) 4 7
    ≡ ok (50 ∷ 46 ∷ 57 ∷ 57 ∷ 57 ∷ 46 ∷ 49 ∷ 48 ∷ [])
unfolding encode dotted
decode_object_identifier-encode_example =
    decode_object_identifier-encode 2 999 (10 ∷ []) (5 ∷ []) 4 (omega arith) (λ h. omega (arith, h))
