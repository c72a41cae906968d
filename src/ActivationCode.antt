-- ===== src/ActivationCode.antt =====
-- `ActivationCode` of pySim/esim/__init__.py: activation codes as SGP.22 section 4.1 writes them. The
-- picture of a code is left out.
pub mod RoundTrip
mod Runs
use zk_e_sim_smdp.Common.{
  ℕ, zero, suc, Bool, true, false, not, ◌||◌, Option, none, some, List, [], ◌∷◌, ◌++◌, length, ◌==◌,
  if◌then◌else◌,
}
use zk_e_sim_smdp.Common.Outcome.{Outcome, ok, err, value_error, index_error, guard, ◌>>=◌, ◌>>◌}
use zk_e_sim_smdp.Common.Bytes.{beq}
use zk_e_sim_smdp.Common.Hex.{Text}

pub record ActivationCode : Type 0 where
  pub hostname : Text
  pub token : Text
  pub oid : Option Text
  pub cc_required : Bool

-- `'$' in text`
unfoldable pub has_dollar : Text → Bool
has_dollar [] = false
has_dollar (c ∷ text) = c == 36 || has_dollar text

-- `ActivationCode(hostname, token, oid, cc_required)`
unfoldable pub new_code : Text → Text → Option Text → Bool → Outcome ActivationCode
new_code hostname token oid cc_required = do
  guard (not (has_dollar hostname)) value_error
  guard (not (has_dollar token)) value_error
  ok (record { hostname = hostname; token = token; oid = oid; cc_required = cc_required })

-- What stands in front of the first `$`, and what stands behind it, if there is one.
unfoldable pub break_dollar : Text → Text × Option Text
break_dollar [] = ([], none)
break_dollar (c ∷ text) =
    let (front, rest) = break_dollar text in if c == 36 then ([], some text) else (c ∷ front, rest)

-- One round of `split`, with the function for the rest.
unfoldable pub parts : (Text → List Text) → Text × Option Text → List Text
parts later (front, none) = front ∷ []
parts later (front, some more) = front ∷ later more

-- `text.split('$')`, on fuel
unfoldable pub split_dollar : ℕ → Text → List Text
unfolding parts
split_dollar zero text = text ∷ []
split_dollar (suc fuel) text = parts (split_dollar fuel) (break_dollar text)

-- The elements behind the token: an empty OID is none, and only "1" asks for a confirmation code.
unfoldable pub options_of : List Text → Option Text × Bool
options_of [] = (none, false)
options_of (oid ∷ []) = (if beq oid [] then none else some oid, false)
options_of (oid ∷ ccr ∷ more) = (if beq oid [] then none else some oid, beq ccr (49 ∷ []))

-- The three elements that a code must have, and the options behind them.
unfoldable pub elements_of : List Text → Outcome (Text × Text × Option Text × Bool)
elements_of (format ∷ hostname ∷ token ∷ options) =
    let (oid, cc_required) = options_of options in ok (hostname, token, oid, cc_required)
elements_of _ = err index_error

-- `decode_str`, whose format is always the text in front of the first `$`
unfoldable pub decode_str : Text → Outcome (Text × Text × Option Text × Bool)
decode_str [] = err index_error
decode_str (c ∷ ac) = guard (c == 49) value_error >> elements_of (split_dollar (length ac) (c ∷ ac))

-- `from_string`
unfoldable pub from_string : Text → Outcome ActivationCode
from_string ac = do
  (hostname, token, oid, cc_required) ← decode_str ac
  new_code hostname token oid cc_required

-- "LPA:"
abbrev lpa : Text
lpa = 76 ∷ 80 ∷ 65 ∷ 58 ∷ []

-- The part behind the token: an empty OID is written as none.
unfoldable pub options_text : Option Text → Bool → Text
options_text none false = []
options_text none true = 36 ∷ 36 ∷ 49 ∷ []
options_text (some []) false = []
options_text (some []) true = 36 ∷ 36 ∷ 49 ∷ []
options_text (some (c ∷ oid)) false = 36 ∷ c ∷ oid
options_text (some (c ∷ oid)) true = (36 ∷ c ∷ oid) ++ (36 ∷ 49 ∷ [])

-- `to_string`
unfoldable pub to_string : ActivationCode → Bool → Text
to_string code for_qrcode =
    (if for_qrcode then lpa else [])
    ++ (49 ∷ 36 ∷ (code.hostname ++ (36 ∷ (code.token ++ options_text code.oid code.cc_required))))
