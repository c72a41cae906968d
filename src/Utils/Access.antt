-- ===== src/Utils/Access.antt =====
-- The access technologies of a network in pySim/utils.py: `dec_act` and `dec_xplmn_w_act`.
use zk_e_sim_smdp.Common.{
  ℕ, ◌+◌, ◌*◌, ◌/◌, ◌%◌, ◌^◌, ◌≡◌, Bool, true, ◌&&◌, ◌||◌, not, List, [], ◌∷◌, take, drop,
  get_elem?, ◌==◌, if◌then◌else◌, arith,
}
use zk_e_sim_smdp.Common.Outcome.{Outcome, ok, index_error, expect, ◌>>=◌}
use zk_e_sim_smdp.Common.Hex.{Text}
use zk_e_sim_smdp.Utils.Plmn.{dec_mcc_from_plmn_str, dec_mnc_from_plmn_str}

-- The names, in the order of `sorted`.
pub data AccessTechnology : Type 0 where
  e_utran_nb_s1 e_utran_wb_s1 ec_gsm_iot gsm gsm_compact ng_ran utran : AccessTechnology
  cdma2000_1xrtt cdma2000_hrpd : AccessTechnology

-- `u16t & (1 << b)`
abbrev pub has_bit : ℕ → ℕ → Bool
has_bit u16t b = u16t / 2 ^ b % 2 == 1

-- `u16t & 0x7000`, and `u16t & 0x008C`: bits 7, 3 and 2
unfoldable pub eutran_bits : ℕ → ℕ
eutran_bits u16t = u16t / 0x1000 % 8 * 0x1000

unfoldable pub gsm_bits : ℕ → ℕ
gsm_bits u16t = u16t / 128 % 2 * 128 + u16t / 4 % 4 * 4

-- `gsm_bits in [0x0080, 0x008C]`
unfoldable pub both_gsm : ℕ → Bool
both_gsm bits = bits == 0x80 || bits == 0x8c

-- Whether a name is in the set `sel`.
unfoldable pub selected : ℕ → AccessTechnology → Bool
unfolding eutran_bits gsm_bits both_gsm
selected u16t utran = has_bit u16t 15
selected u16t ng_ran = has_bit u16t 11
selected u16t gsm_compact = has_bit u16t 6
selected u16t cdma2000_hrpd = has_bit u16t 5
selected u16t cdma2000_1xrtt = has_bit u16t 4
selected u16t e_utran_wb_s1 =
    eutran_bits u16t == 0x4000 || eutran_bits u16t == 0x7000 || eutran_bits u16t == 0x6000
selected u16t e_utran_nb_s1 =
    eutran_bits u16t == 0x4000 || eutran_bits u16t == 0x7000 || eutran_bits u16t == 0x5000
selected u16t gsm = both_gsm (gsm_bits u16t) || gsm_bits u16t == 0x84
selected u16t ec_gsm_iot =
    both_gsm (gsm_bits u16t) || (not (gsm_bits u16t == 0x84) && gsm_bits u16t == 0x86)

unfoldable pub those_in : (AccessTechnology → Bool) → List AccessTechnology → List AccessTechnology
those_in sel [] = []
those_in sel (a ∷ more) = let rest = those_in sel more in if sel a then a ∷ rest else rest

abbrev pub all_technologies : List AccessTechnology
all_technologies =
    e_utran_nb_s1 ∷ e_utran_wb_s1 ∷ ec_gsm_iot ∷ gsm ∷ gsm_compact ∷ ng_ran ∷ utran ∷ cdma2000_1xrtt
    ∷ cdma2000_hrpd ∷ []

module _ (h2i : Text → Outcome (List ℕ)) where
  -- `sorted(list(sel))`, of two bytes
  unfoldable pub dec_act : Text → Outcome (List AccessTechnology)
  unfolding selected those_in
  dec_act twohexbytes = do
    ia ← h2i twohexbytes
    high ← expect (get_elem? ia 0) index_error
    low ← expect (get_elem? ia 1) index_error
    ok (those_in (selected (high * 256 + low)) all_technologies)

  unfoldable pub dec_xplmn_w_act : Text → Outcome (Text × Text × List AccessTechnology)
  unfolding dec_act
  dec_xplmn_w_act fivehexbytes = do
    let plmn_str = take 6 fivehexbytes
    let act_str = take 4 (drop 6 fivehexbytes)
    mcc ← dec_mcc_from_plmn_str plmn_str
    mnc ← dec_mnc_from_plmn_str plmn_str
    act ← dec_act act_str
    ok (mcc, mnc, act)

-- EC-GSM-IoT is never selected without GSM: the branch for 0x0086 is not reached.
pub ec_gsm_iot_with_gsm : (u16t : ℕ) → selected u16t ec_gsm_iot ≡ true → selected u16t gsm ≡ true
unfolding selected gsm_bits both_gsm
ec_gsm_iot_with_gsm u16t h = ground (arith, h)
