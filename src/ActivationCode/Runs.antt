-- ===== src/ActivationCode/Runs.antt =====
-- The round trip of activation codes at a concrete input.
use zk_e_sim_smdp.Common.{true, false, none, [], ◌∷◌, ◌≡◌, refl}
use zk_e_sim_smdp.Common.Outcome.{ok, err, value_error}
use zk_e_sim_smdp.ActivationCode.{ActivationCode, has_dollar, from_string, to_string}
use zk_e_sim_smdp.ActivationCode.RoundTrip.{oid_read, oid_text, from_string-to_string}

-- "1$a$b$$1"
abbrev with_confirmation : ActivationCode
with_confirmation = record { hostname = 97 ∷ []; token = 98 ∷ []; oid = none; cc_required = true }

from_string-to_string_example :
    (from_string (to_string with_confirmation false) ≡ ok with_confirmation)
    × (from_string (to_string with_confirmation true) ≡ err value_error)
unfolding oid_read
from_string-to_string_example =
    from_string-to_string with_confirmation (unfold has_dollar in refl) (unfold has_dollar in refl)
      (unfold has_dollar oid_text in refl)
