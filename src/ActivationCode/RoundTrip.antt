-- ===== src/ActivationCode/RoundTrip.antt =====
-- Activation codes of pySim/esim/__init__.py come back from their text.
use zk_e_sim_smdp.Common.{
  ℕ, zero, suc, ◌+◌, ◌-◌, ◌≤◌, ◌<◌, ◌≡◌, refl, ap, ◌∙◌, Bool, true, false, Option, none, some, List,
  [], ◌∷◌, ◌++◌, length, length-append, arith,
}
use mathlib.Core.List.{append-nil}
use zk_e_sim_smdp.Common.Outcome.{ok, err, value_error}
use zk_e_sim_smdp.Common.Bytes.{beq}
use zk_e_sim_smdp.Common.Hex.{Text}
use zk_e_sim_smdp.ActivationCode.{
  ActivationCode, has_dollar, new_code, break_dollar, parts, split_dollar, options_of, elements_of,
  decode_str, from_string, options_text, to_string,
}

-- What is read back of an OID: an empty one is none.
unfoldable pub oid_read : Option Text → Option Text
oid_read none = none
oid_read (some []) = none
oid_read (some (c ∷ oid)) = some (c ∷ oid)

unfoldable pub oid_text : Option Text → Text
oid_text none = []
oid_text (some oid) = oid

break_front :
    (s rest : Text) → has_dollar s ≡ false → break_dollar (s ++ 36 ∷ rest) ≡ (s, some rest)
unfolding has_dollar break_dollar
break_front [] rest h = refl
break_front (c ∷ s) rest h = ground (arith, break_front s rest)

break_whole : (s : Text) → has_dollar s ≡ false → break_dollar s ≡ (s, none)
unfolding has_dollar break_dollar
break_whole [] h = refl
break_whole (c ∷ s) h = ground (arith, break_whole s)

split_front :
    (fuel : ℕ) (s rest : Text)
    → has_dollar s ≡ false
    → 0 < fuel
    → split_dollar fuel (s ++ 36 ∷ rest) ≡ s ∷ split_dollar (fuel - 1) rest
unfolding split_dollar parts
split_front zero s rest h enough = absurd (omega arith)
split_front (suc fuel) s rest h enough =
    let one_less : fuel ≡ suc fuel - 1 = omega arith in
    ap (parts (split_dollar fuel)) (break_front s rest h)
    ∙ (ap (λ (n : ℕ). s ∷ split_dollar n rest) one_less)

split_whole : (fuel : ℕ) (s : Text) → has_dollar s ≡ false → split_dollar fuel s ≡ s ∷ []
unfolding split_dollar parts
split_whole zero s h = refl
split_whole (suc fuel) s h = ap (parts (split_dollar fuel)) (break_whole s h)

split_three :
    (fuel : ℕ) (s t u : Text)
    → has_dollar s ≡ false
    → has_dollar t ≡ false
    → has_dollar u ≡ false
    → 2 ≤ fuel
    → split_dollar fuel (s ++ 36 ∷ (t ++ 36 ∷ u)) ≡ s ∷ t ∷ u ∷ []
split_three fuel s t u hs ht hu enough =
    split_front fuel s (t ++ 36 ∷ u) hs (omega arith)
    ∙ ap (λ (l : List Text). s ∷ l)
        (split_front (fuel - 1) t u ht (omega arith)
          ∙ ap (λ (l : List Text). t ∷ l) (split_whole (fuel - 1 - 1) u hu))

-- The parts of a text behind the token.
split_options :
    (fuel : ℕ) (token : Text) (oid : Option Text) (cc_required : Bool)
    → has_dollar token ≡ false
    → has_dollar (oid_text oid) ≡ false
    → length (options_text oid cc_required) ≤ fuel
    → (rest : List Text) × (split_dollar fuel (token ++ options_text oid cc_required)
        ≡ token ∷ rest)
      × (options_of rest ≡ (oid_read oid, cc_required))
unfolding options_text options_of oid_read oid_text beq has_dollar
split_options fuel token none false t o enough =
    ([], rw (append-nil token) (split_whole fuel token t), refl)
split_options fuel token (some []) false t o enough =
    ([], rw (append-nil token) (split_whole fuel token t), refl)
split_options fuel token none true t o enough =
    ([] ∷ (49 ∷ []) ∷ [], split_three fuel token [] (49 ∷ []) t refl refl (omega arith), refl)
split_options fuel token (some []) true t o enough =
    ([] ∷ (49 ∷ []) ∷ [], split_three fuel token [] (49 ∷ []) t refl refl (omega arith), refl)
split_options fuel token (some (c ∷ oid)) false t o enough =
    let oid_alone = split_whole (fuel - 1) (c ∷ oid) o in
    (
      (c ∷ oid) ∷ [],
      split_front fuel token (c ∷ oid) t (omega arith)
          ∙ ap (λ (l : List Text). token ∷ l) oid_alone,
      refl,
    )
split_options fuel token (some (c ∷ oid)) true t o enough =
    let size = length-append (36 ∷ c ∷ oid) (36 ∷ 49 ∷ []) in
    (
      (c ∷ oid) ∷ (49 ∷ []) ∷ [],
      split_three fuel token (c ∷ oid) (49 ∷ []) t o refl (omega arith),
      refl,
    )

-- The text of a code without `$` in its parts is read as that code, with an empty OID as none; the
-- text for a QR code, with "LPA:" in front, is refused.
pub from_string-to_string :
    (code : ActivationCode)
    → has_dollar code.hostname ≡ false
    → has_dollar code.token ≡ false
    → has_dollar (oid_text code.oid) ≡ false
    → (from_string (to_string code false) ≡ ok (record code { oid = oid_read code.oid }))
      × (from_string (to_string code true) ≡ err value_error)
unfolding from_string to_string decode_str new_code
from_string-to_string code h t o =
    let opts : Text = options_text code.oid code.cc_required in
    let behind : Text = code.token ++ opts in
    let n : ℕ = length (36 ∷ (code.hostname ++ 36 ∷ behind)) in
    let e₁ : n ≡ suc (length code.hostname + suc (length behind)) =
      ap suc (length-append code.hostname (36 ∷ behind)) in
    let e₂ = length-append code.token opts in
    let (rest, split, options) =
      split_options (n - 1 - 1) code.token code.oid code.cc_required t o (omega arith) in
    let cut : split_dollar n (49 ∷ 36 ∷ (code.hostname ++ 36 ∷ behind))
        ≡ (49 ∷ []) ∷ code.hostname ∷ code.token ∷ rest =
      split_front n (49 ∷ []) (code.hostname ++ 36 ∷ behind) (unfold has_dollar in refl)
        (omega arith)
      ∙ ap (λ (l : List Text). (49 ∷ []) ∷ l)
          (split_front (n - 1) code.hostname behind h (omega arith)
            ∙ ap (λ (l : List Text). code.hostname ∷ l) split) in
    let elements : elements_of (split_dollar n (49 ∷ 36 ∷ (code.hostname ++ 36 ∷ behind)))
        ≡ ok (code.hostname, code.token, oid_read code.oid, code.cc_required) =
      ap elements_of cut ∙ unfold elements_of in rw options refl in
    (rw (elements, h, t) refl, refl)
