-- ===== src/Utils/Commands.antt =====
-- Status words and sets of card commands in pySim/utils.py: patterns in which some characters stand
-- for any.
use mathlib.Core.Path.{Path, subst}
use zk_e_sim_smdp.Common.{
  ap, sym, ◌∙◌, length, ℕ, zero, suc, ◌≡◌, ◌↔◌, ◌⊎◌, inl, inr, refl, Bool, true, false, not, ◌||◌,
  Option, none, some, List, [], ◌∷◌, get_elem?, ◌==◌, Bool-cases, if◌then◌else◌, arith, ltb,
}
use zk_e_sim_smdp.Common.Outcome.{Outcome, ok, err, index_error, value_error, expect, ◌>>=◌}
use zk_e_sim_smdp.Common.Bytes.{beq, beq→eq, beq_refl}
use zk_e_sim_smdp.Common.Hex.{Text}
use zk_e_sim_smdp.Utils.Strings.{lower, decimal_digits}

-- One character of the masked status word: `?` and `x` of the pattern are kept.
unfoldable pub masked_char : ℕ → Option ℕ → Outcome ℕ
masked_char p c = if p == 63 || p == 120 then ok p else expect c index_error

-- The masked status word, of as many characters as are left.
unfoldable pub masked : ℕ → Text → Text → Outcome Text
unfolding masked_char
masked zero sw pattern_ = ok []
masked (suc n) sw [] = err index_error
masked (suc n) [] (p ∷ pattern_) =
    masked_char p none >>= λ m. masked n [] pattern_ >>= λ ms. ok (m ∷ ms)
masked (suc n) (c ∷ sw) (p ∷ pattern_) =
    masked_char p (some c) >>= λ m. masked n sw pattern_ >>= λ ms. ok (m ∷ ms)

unfoldable pub sw_match : Text → Text → Outcome Bool
unfolding masked
sw_match sw pattern_ = masked 4 (lower sw) pattern_ >>= λ sw_masked. ok (beq sw_masked pattern_)

-- `CardCommand`, with its classes in lower case
pub record CardCommand : Type 0 where
  pub name : Text
  pub ins : ℕ
  pub cla_list : List Text

unfoldable pub lower_all : List Text → List Text
lower_all [] = []
lower_all (x ∷ xs) = lower x ∷ lower_all xs

-- `CardCommand(name, ins, cla_list)`
unfoldable pub new_command : Text → ℕ → List Text → CardCommand
new_command name ins cla_list = record { name = name; ins = ins; cla_list = lower_all cla_list }

-- One character of the masked class: `x` is kept.
unfoldable pub masked_cla_char : ℕ → Text → ℕ → Outcome ℕ
masked_cla_char p cla i = if p == 120 then ok p else expect (get_elem? cla i) index_error

unfoldable pub masked_cla : Text → Text → Outcome Text
unfolding masked_cla_char
masked_cla cla_match cla = do
  p ← expect (get_elem? cla_match 0) index_error
  m ← masked_cla_char p cla 0
  q ← expect (get_elem? cla_match 1) index_error
  n ← masked_cla_char q cla 1
  ok (m ∷ n ∷ [])

-- The loop over the classes of a command.
unfoldable pub any_cla : List Text → Text → Outcome Bool
unfolding masked_cla
any_cla [] cla = ok false
any_cla (cla_match ∷ more) cla = masked_cla cla_match cla >>= λ cla_masked.
    let later = any_cla more cla in if beq cla_masked cla_match then ok true else later

-- `'%02u' % n`
unfoldable pub two_digits : ℕ → Text
unfolding decimal_digits
two_digits n = let digits = decimal_digits (suc n) n in if ltb n 10 then 48 ∷ digits else digits

-- A class as `match_cla` takes it
pub data Cla : Type 0 where
  text : Text → Cla
  number : ℕ → Cla

unfoldable pub cla_text : Cla → Text
unfolding two_digits
cla_text (text cla) = cla
cla_text (number n) = two_digits n

unfoldable pub match_cla : CardCommand → Cla → Outcome Bool
unfolding any_cla cla_text
match_cla cmd cla = any_cla cmd.cla_list (lower (cla_text cla))

-- `CardCommandSet.cmds`, the dictionary by INS
abbrev pub CardCommandSet : Type 0
CardCommandSet = List (ℕ × CardCommand)

unfoldable pub get_command : ℕ → CardCommandSet → Option CardCommand
get_command ins [] = none
get_command ins ((i, c) ∷ cmds) = if i == ins then some c else get_command ins cmds

unfoldable pub set_command : ℕ → CardCommand → CardCommandSet → CardCommandSet
set_command ins c [] = (ins, c) ∷ []
set_command ins c ((i, old) ∷ cmds) =
    if i == ins then (i, c) ∷ cmds else (i, old) ∷ set_command ins c cmds

-- `CardCommandSet(name, cmds)`: of two commands with one INS the last one stays
unfoldable pub new_set : CardCommandSet → List CardCommand → CardCommandSet
unfolding set_command
new_set known [] = known
new_set known (c ∷ more) = new_set (set_command c.ins c known) more

-- `__add__` changes the set it is called on, and returns nothing: the result here is that set. Of one
-- command, an INS may be there once only.
unfoldable pub add_command : CardCommandSet → CardCommand → Outcome CardCommandSet
add_command cmds other = elim (get_command other.ins cmds) [
  | none ↦ ok (set_command other.ins other cmds)
  | some c ↦ err value_error
]

-- Of a set, its commands replace those that are there.
unfoldable pub add_commands : CardCommandSet → CardCommandSet → CardCommandSet
unfolding set_command
add_commands cmds [] = cmds
add_commands cmds ((ins, c) ∷ other) = add_commands (set_command ins c cmds) other

-- `if cla`: an empty text and the number 0 are false
unfoldable pub is_given : Cla → Bool
is_given (text []) = false
is_given (text (c ∷ cla)) = true
is_given (number n) = not (n == 0)

-- What `lookup` does with the command of an INS; no class, or a false one, fits every command.
unfoldable pub fitting : Option CardCommand → Option Cla → Outcome (Option CardCommand)
unfolding is_given
fitting none cla = ok none
fitting (some cmd) none = ok (some cmd)
fitting (some cmd) (some cla) =
    let tested = match_cla cmd cla >>= λ fits. ok (if fits then some cmd else none) in
    if is_given cla then tested else ok (some cmd)

-- `CardCommandSet.lookup`
unfoldable pub lookup : CardCommandSet → ℕ → Option Cla → Outcome (Option CardCommand)
unfolding get_command fitting
lookup cmds ins cla = fitting (get_command ins cmds) cla

-- The characters that fit a pattern: the pattern's own, and any where it has `?` or `x`.
unfoldable pub FitsChar : ℕ → ℕ → Type 0
FitsChar p c = ((p ≡ 63) ⊎ (p ≡ 120)) ⊎ (c ≡ p)

unfoldable pub Fits : Text → Text → Type 0
unfolding FitsChar
Fits [] ps = Unit {0}
Fits (c ∷ cs) [] = Unit {0}
Fits (c ∷ cs) (p ∷ ps) = FitsChar p c × Fits cs ps

-- A masked character is that of the pattern exactly where the word's character fits.
masked_char-FitsChar :
    (p c : ℕ) → (m : ℕ) × (masked_char p (some c) ≡ ok m) × ((m ≡ p) ↔ FitsChar p c)
unfolding masked_char FitsChar
masked_char-FitsChar p c = elim (Bool-cases (p == 63 || p == 120)) [
  | inl wild ↦ (p, rw wild refl, (λ e. inl (ground (arith, wild)), λ f. refl))
  | inr tame ↦ (c, rw tame refl, (λ e. inr e, λ f. ground (arith, tame, f)))
]

-- On words and patterns of one length.
masked-Fits :
    (cs ps : Text)
    → length cs ≡ length ps
    → (ms : Text) × (masked (length ps) cs ps ≡ ok ms) × ((ms ≡ ps) ↔ Fits cs ps)
unfolding masked Fits
masked-Fits [] [] e = ([], refl, (λ e. tt, λ f. refl))
masked-Fits [] (p ∷ ps) e = ground arith
masked-Fits (c ∷ cs) [] e = ground arith
masked-Fits (c ∷ cs) (p ∷ ps) e =
    let (m, em, (to, from)) = masked_char-FitsChar p c in
    let (ms, ems, (tos, froms)) = masked-Fits cs ps (ground arith) in
    (m ∷ ms, rw (em, ems) refl, (λ h. (to cc, tos cc), λ (f, fs). rw (from f, froms fs) refl))

length-lower : (t : Text) → length (lower t) ≡ length t
unfolding lower
length-lower [] = refl
length-lower (c ∷ t) = ap (λ n. suc n) (length-lower t)

compared :
    (m : Outcome Text) (ms ps : Text) → m ≡ ok ms → (m >>= λ t. ok (beq t ps)) ≡ ok (beq ms ps)
compared m ms ps e = rw e refl

-- On four characters and a pattern of four, sw_match finds exactly that every character fits.
pub sw_match_iff :
    (sw pattern_ : Text)
    → length sw ≡ 4
    → length pattern_ ≡ 4
    → (sw_match sw pattern_ ≡ ok true) ↔ Fits (lower sw) pattern_
unfolding sw_match
sw_match_iff sw pattern_ e f =
    let same : length (lower sw) ≡ length pattern_ = length-lower sw ∙ e ∙ sym f in
    let (ms, run, (to, from)) = masked-Fits (lower sw) pattern_ same in
    let run4 : masked 4 (lower sw) pattern_ ≡ ok ms =
      subst (λ n. masked n (lower sw) pattern_ ≡ ok ms) f run in
    (
      λ h.
          let found : Path (Outcome Bool) (ok (beq ms pattern_)) (ok true) =
            sym (compared (masked 4 (lower sw) pattern_) ms pattern_ run4) ∙ h in
          to (beq→eq ms pattern_ cc),
      λ h.
          compared (masked 4 (lower sw) pattern_) ms pattern_ run4
          ∙ ap (λ b. ok b) (ap (λ t. beq t pattern_) (from h) ∙ beq_refl pattern_),
    )
