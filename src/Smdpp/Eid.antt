-- ===== src/Smdpp/Eid.antt =====
-- The EID ranges of osmo-smdpp.py: which identifiers an EUM certificate permits. The extensions of a
-- certificate are parsed by `cryptography` and asn1tools; a text is ASCII.
pub mod Ranges
mod Runs
use zk_e_sim_smdp.Common.{
  ℕ, String, Bool, true, false, not, ◌&&◌, ◌||◌, Option, none, some, List, [], ◌∷◌, ◌++◌, length,
  leb, ◌==◌, if◌then◌else◌,
}
use zk_e_sim_smdp.Common.Outcome.{Outcome, ok, err}
use zk_e_sim_smdp.Common.Bytes.{beq}
use zk_e_sim_smdp.Common.Hex.{Text}
use zk_e_sim_smdp.Smdpp.Authenticate.Checks.{has_prefix}
use zk_e_sim_smdp.Utils.Strings.{is_white, strip, upper}
use text.Mathlib.Text.{◌==◌ as str_eq}

-- What the extensions of an EUM certificate hold: the policies, the decoded value of each extension
-- of GSMA's permitted EINs, and the directory names of the permitted subtrees, whose attributes are a
-- serial number or another one. What fails to parse is an exception.
pub record EumExtensions : Type 0 where
  pub policies : Outcome (List String)
  pub permitted_eins : List (Outcome (List Text))
  pub permitted_subtrees : Outcome (List (List (Bool × Text)))

pub data Variant : Type 0 where
  old new unknown : Variant

variant_of : List String → Variant
variant_of [] = unknown
variant_of (policy ∷ policies) =
    let later = variant_of policies in
    if str_eq policy "2.23.146.1.2.1.2"
    then old
    else if str_eq policy "2.23.146.1.2.1.0.0.0"
    then new
    else later

-- `get_eum_certificate_variant`: any exception leaves the variant unknown
unfoldable pub get_eum_certificate_variant : EumExtensions → Variant
unfolding variant_of
get_eum_certificate_variant cert = elim cert.policies [ ok ps ↦ variant_of ps | err e ↦ unknown ]

-- `c in '0123456789ABCDEF'`
abbrev pub is_upper_hex : ℕ → Bool
is_upper_hex c = (leb 48 c && leb c 57) || (leb 65 c && leb c 70)

unfoldable pub all_upper_hex : Text → Bool
all_upper_hex [] = true
all_upper_hex (c ∷ text) = is_upper_hex c && all_upper_hex text

-- Eight digits; their number is even.
unfoldable pub is_iin : Text → Bool
is_iin iin = length iin == 8 && all_upper_hex iin

-- Those strings of one extension that are IINs.
unfoldable pub clean_iins : List Text → List Text
clean_iins [] = []
clean_iins (iin_string ∷ more) =
    let iin_clean = upper (strip is_white iin_string) in
    let rest = clean_iins more in if is_iin iin_clean then iin_clean ∷ rest else rest

-- `_parse_gsma_permitted_eins`: an extension that does not decode counts for nothing
unfoldable pub parse_gsma_permitted_eins : List (Outcome (List Text)) → List Text
unfolding clean_iins
parse_gsma_permitted_eins [] = []
parse_gsma_permitted_eins (ok strings ∷ exts) = clean_iins strings ++ parse_gsma_permitted_eins exts
parse_gsma_permitted_eins (err e ∷ exts) = parse_gsma_permitted_eins exts

unfoldable pub serial_iins : List (Bool × Text) → List Text
serial_iins [] = []
serial_iins ((is_serial, value) ∷ attributes) =
    let rest = serial_iins attributes in
    if is_serial && is_iin (upper value) then upper value ∷ rest else rest

unfoldable pub subtree_iins : List (List (Bool × Text)) → List Text
unfolding serial_iins
subtree_iins [] = []
subtree_iins (name ∷ subtrees) = serial_iins name ++ subtree_iins subtrees

-- `_parse_name_constraints_eins`
unfoldable pub parse_name_constraints_eins : Outcome (List (List (Bool × Text))) → List Text
unfolding subtree_iins
parse_name_constraints_eins (ok subtrees) = subtree_iins subtrees
parse_name_constraints_eins (err e) = []

abbrev by_variant : Variant → EumExtensions → List Text
by_variant old cert = parse_name_constraints_eins cert.permitted_subtrees
by_variant _ cert = parse_gsma_permitted_eins cert.permitted_eins

-- `parse_permitted_eins_from_cert`; that a set keeps each only once makes no difference to the check
unfoldable pub parse_permitted_eins_from_cert : EumExtensions → List Text
parse_permitted_eins_from_cert cert = by_variant (get_eum_certificate_variant cert) cert

unfoldable pub any_prefix : List Text → Text → Bool
any_prefix [] eid = false
any_prefix (iin ∷ iins) eid = has_prefix iin eid || any_prefix iins eid

-- `validate_eid_range`; none is an EID that is missing
unfoldable pub validate_eid_range : Option Text → EumExtensions → Bool
validate_eid_range none cert = false
validate_eid_range (some eid) cert =
    length eid == 32 && any_prefix (parse_permitted_eins_from_cert cert) (upper eid)
