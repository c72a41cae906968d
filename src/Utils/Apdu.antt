-- ===== src/Utils/Apdu.antt =====
-- `parse_command_apdu` of pySim/utils.py, and the commands of ISO/IEC 7816-3 that it reads.
use zk_e_sim_smdp.Common.{
  ℕ, ◌+◌, ◌%◌, ◌≤◌, ◌≡◌, refl, [], ◌∷◌, ◌++◌, some, length, length-append, take, take_all,
  take-append, get_elem?, ◌==◌, true, false, if◌then◌else◌, arith,
}
use zk_e_sim_smdp.Common.Outcome.{Outcome, ok, err, value_error, index_error, expect, ◌>>=◌}
use zk_e_sim_smdp.Common.Bytes.{Bytes}

-- The case of ISO/IEC 7816-3, the two lengths and the data.
pub record ParsedApdu : Type 0 where
  pub case_number : ℕ
  pub lc : ℕ
  pub le : ℕ
  pub data_field : Bytes

-- A length of 0 stands for 256.
unfoldable pub full_length : ℕ → ℕ
full_length n = if n == 0 then 256 else n

-- What follows Lc: the data, and perhaps Le.
unfoldable pub parse_body : ℕ → Bytes → Outcome ParsedApdu
parse_body lc body =
    if length body == lc
    then ok (record { case_number = 3; lc = lc; le = 0; data_field = take lc body })
    else if length body == lc + 1
    then (expect (get_elem? body lc) index_error >>= λ le.
        ok (record { case_number = 4; lc = lc; le = full_length le; data_field = take lc body }))
    else err value_error

unfoldable pub parse_command_apdu : Bytes → Outcome ParsedApdu
parse_command_apdu (cla ∷ ins ∷ p1 ∷ p2 ∷ []) =
    ok (record { case_number = 1; lc = 0; le = 0; data_field = [] })
parse_command_apdu (cla ∷ ins ∷ p1 ∷ p2 ∷ p3 ∷ []) =
    ok (record { case_number = 2; lc = 0; le = full_length p3; data_field = [] })
parse_command_apdu (cla ∷ ins ∷ p1 ∷ p2 ∷ p3 ∷ b ∷ body) = parse_body (full_length p3) (b ∷ body)
parse_command_apdu _ = err value_error

-- The four cases of a command: header, data and expected length.
pub data Command : Type 0 where
  no_data : (header : ℕ × ℕ × ℕ × ℕ) → Command
  data_out : (header : ℕ × ℕ × ℕ × ℕ) → (le : ℕ) → Command
  data_in : (header : ℕ × ℕ × ℕ × ℕ) → (body : Bytes) → Command
  data_in_out : (header : ℕ × ℕ × ℕ × ℕ) → (body : Bytes) → (le : ℕ) → Command

-- Between one and 256 bytes of data, and as many expected.
unfoldable pub IsCommand : Command → Type 0
IsCommand (no_data header) = Unit {0}
IsCommand (data_out header le) = (1 ≤ le) × (le ≤ 256)
IsCommand (data_in header body) = (1 ≤ length body) × (length body ≤ 256)
IsCommand (data_in_out header body le) =
    (1 ≤ length body) × (length body ≤ 256) × (1 ≤ le) × (le ≤ 256)

unfoldable pub with_header : ℕ × ℕ × ℕ × ℕ → Bytes → Bytes
with_header (cla, ins, p1, p2) rest = cla ∷ ins ∷ p1 ∷ p2 ∷ rest

-- The bytes of a command.
unfoldable pub command_apdu : Command → Bytes
unfolding with_header
command_apdu (no_data header) = with_header header []
command_apdu (data_out header le) = with_header header (le % 256 ∷ [])
command_apdu (data_in header body) = with_header header (length body % 256 ∷ body)
command_apdu (data_in_out header body le) =
    with_header header (length body % 256 ∷ (body ++ le % 256 ∷ []))

-- What is read of a command.
unfoldable pub parsed : Command → ParsedApdu
parsed (no_data header) = record { case_number = 1; lc = 0; le = 0; data_field = [] }
parsed (data_out header n) = record { case_number = 2; lc = 0; le = n; data_field = [] }
parsed (data_in header body) = record {
  case_number = 3;
  lc = length body;
  le = 0;
  data_field = body;
}
parsed (data_in_out header body n) = record {
  case_number = 4;
  lc = length body;
  le = n;
  data_field = body;
}

full_length_lem : (n : ℕ) → 1 ≤ n → n ≤ 256 → full_length (n % 256) ≡ n
unfolding full_length
full_length_lem n low high = ground arith

last_elem : (body : Bytes) (x : ℕ) → get_elem? (body ++ x ∷ []) (length body) ≡ some x
last_elem [] x = refl
last_elem (b ∷ body) x = last_elem body x

-- Every command of at most 256 bytes of data, and as many expected, is read as what it is.
pub parse_command_apdu-command_apdu :
    (c : Command) → IsCommand c → parse_command_apdu (command_apdu c) ≡ ok (parsed c)
unfolding parse_command_apdu command_apdu with_header parsed IsCommand parse_body
parse_command_apdu-command_apdu (no_data h) it = refl
parse_command_apdu-command_apdu (data_out h le) (low, high) = rw (full_length_lem le low high)
parse_command_apdu-command_apdu (data_in h []) (low, high) = absurd (omega arith)
parse_command_apdu-command_apdu (data_in h (b ∷ body)) (low, high) =
    let same : (length (b ∷ body) == length (b ∷ body)) ≡ true = ground arith in
    rw
      (
        full_length_lem (length (b ∷ body)) low high,
        same,
        take_all (b ∷ body) (length (b ∷ body)) (omega arith),
      )
      refl
parse_command_apdu-command_apdu (data_in_out h [] le) (low, high, l, k) = absurd (omega arith)
parse_command_apdu-command_apdu (data_in_out h (b ∷ body) le) (low, high, l, k) =
    let n : ℕ = length (b ∷ body) in
    let all : Bytes = (b ∷ body) ++ le % 256 ∷ [] in
    let size : length all ≡ n + 1 = omega (arith, length-append (b ∷ body) (le % 256 ∷ [])) in
    let longer : (length all == n) ≡ false = ground (arith, size) in
    let by_one : (length all == n + 1) ≡ true = ground (arith, size) in
    rw
      (
        full_length_lem n low high,
        longer,
        by_one,
        last_elem (b ∷ body) (le % 256),
        full_length_lem le l k,
        take-append (b ∷ body) (le % 256 ∷ []) n refl,
      )
      refl
