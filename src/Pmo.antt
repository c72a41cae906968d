-- ===== src/Pmo.antt =====
-- `PMO` of pySim/esim/__init__.py: a profile management operation by its name, its bit and its bit
-- string.
use zk_e_sim_smdp.Common.{ℕ, zero, suc, ◌/◌, ◌%◌, ◌≡◌, refl, [], ◌∷◌, ◌==◌, if◌then◌else◌}
use zk_e_sim_smdp.Common.Outcome.{Outcome, ok, err, value_error, index_error}
use zk_e_sim_smdp.Common.Bytes.{Bytes, beq}
use zk_e_sim_smdp.Common.Hex.{Text}

-- The keys of `pmo4operation`.
pub data Operation : Type 0 where
  install enable disable delete_profile : Operation

-- The keys as texts: "install", "enable", "disable", "delete".
unfoldable pub name_of : Operation → Text
name_of install = 105 ∷ 110 ∷ 115 ∷ 116 ∷ 97 ∷ 108 ∷ 108 ∷ []
name_of enable = 101 ∷ 110 ∷ 97 ∷ 98 ∷ 108 ∷ 101 ∷ []
name_of disable = 100 ∷ 105 ∷ 115 ∷ 97 ∷ 98 ∷ 108 ∷ 101 ∷ []
name_of delete_profile = 100 ∷ 101 ∷ 108 ∷ 101 ∷ 116 ∷ 101 ∷ []

-- `PMO(op)`
unfoldable pub new_pmo : Text → Outcome Operation
new_pmo op =
    if beq op (name_of install)
    then ok install
    else if beq op (name_of enable)
    then ok enable
    else if beq op (name_of disable)
    then ok disable
    else if beq op (name_of delete_profile)
    then ok delete_profile
    else err value_error

unfoldable pub to_int : Operation → ℕ
to_int install = 0x80
to_int enable = 0x40
to_int disable = 0x20
to_int delete_profile = 0x10

-- The rounds of `_num_bits` that are left: in the round for bit `i` there are `8 - i`.
unfoldable pub num_bits_loop : ℕ → ℕ → ℕ
num_bits_loop zero shifted = 0
num_bits_loop (suc left) shifted =
    let later = num_bits_loop left (shifted / 2) in if shifted % 2 == 1 then suc left else later

-- `_num_bits`
unfoldable pub num_bits : ℕ → ℕ
num_bits bits = num_bits_loop 8 bits

unfoldable pub to_bitstring : Operation → Bytes × ℕ
to_bitstring op = (to_int op ∷ [], num_bits (to_int op))

-- `from_int`
unfoldable pub from_int : ℕ → Outcome Operation
from_int i =
    if i == 0x80
    then ok install
    else if i == 0x40
    then ok enable
    else if i == 0x20
    then ok disable
    else if i == 0x10
    then ok delete_profile
    else err value_error

-- `from_bitstring`
unfoldable pub from_bitstring : Bytes × ℕ → Outcome Operation
from_bitstring ([], n) = err index_error
from_bitstring (b ∷ bs, n) = from_int b

-- The bit string of an operation is read as that operation.
pub from_bitstring-to_bitstring : (op : Operation) → from_bitstring (to_bitstring op) ≡ ok op
unfolding from_bitstring to_bitstring from_int to_int
from_bitstring-to_bitstring install = refl
from_bitstring-to_bitstring enable = refl
from_bitstring-to_bitstring disable = refl
from_bitstring-to_bitstring delete_profile = refl

-- The name of an operation makes that operation.
pub new_pmo-name_of : (op : Operation) → new_pmo (name_of op) ≡ ok op
unfolding new_pmo name_of beq
new_pmo-name_of install = refl
new_pmo-name_of enable = refl
new_pmo-name_of disable = refl
new_pmo-name_of delete_profile = refl
