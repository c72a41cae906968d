-- ===== src/Smdpp/Oid.antt =====
-- The decoder of object identifiers that osmo-smdpp.py puts in place of asn1tools' own. The bytes of
-- `data` are given from `offset` on: the code reads them forwards only.
pub mod RoundTrip
mod Runs
use zk_e_sim_smdp.Common.{
  ℕ, zero, suc, ◌+◌, ◌-◌, ◌*◌, ◌/◌, ◌%◌, Bool, true, false, List, [], ◌∷◌, ◌++◌, ltb, ◌==◌,
  if◌then◌else◌,
}
use zk_e_sim_smdp.Common.Outcome.{Outcome, ok, err, index_error, ◌>>=◌}
use zk_e_sim_smdp.Common.Bytes.{Bytes}
use zk_e_sim_smdp.Common.Hex.{Text}
use zk_e_sim_smdp.Utils.Strings.{decimal_digits}

-- The value so far, and what is left to read: its bytes, and where they begin.
unfoldable pub read_subidentifier : ℕ → Bytes → ℕ → Outcome (ℕ × Bytes × ℕ)
read_subidentifier value [] offset = err index_error
read_subidentifier value (b ∷ data_) offset =
    let value' = value * 128 + b % 128 in
    let more = read_subidentifier value' data_ (offset + 1) in
    if b / 128 % 2 == 1 then more else ok (value', data_, offset + 1)

-- The first two arcs, out of the first number
unfoldable pub first_arcs : ℕ → ℕ × ℕ
first_arcs subid =
    if ltb subid 40 then (0, subid) else if ltb subid 80 then (1, subid - 40) else (2, subid - 80)

unfoldable pub in_front : ℕ × ℕ → List ℕ → List ℕ
in_front (first, second) arcs = first ∷ second ∷ arcs

-- The loop over the other arcs, on fuel
unfoldable pub read_arcs : ℕ → Bytes → ℕ → ℕ → Outcome (List ℕ)
unfolding read_subidentifier
read_arcs zero data_ offset end_offset = ok []
read_arcs (suc fuel) data_ offset end_offset =
    let round = read_subidentifier 0 data_ offset >>= λ (subid, rest, next).
    read_arcs fuel rest next end_offset >>= λ arcs. ok (subid ∷ arcs) in
    if ltb offset end_offset then round else ok []

-- `'.'.join(str(x) for x in arcs)`
unfoldable pub dotted : List ℕ → Text
unfolding decimal_digits
dotted [] = []
dotted (x ∷ []) = decimal_digits (suc x) x
dotted (x ∷ y ∷ arcs) = decimal_digits (suc x) x ++ (46 ∷ dotted (y ∷ arcs))

-- Each round of the loop takes one byte at least, so that there is fuel for all of them.
unfoldable pub decode_object_identifier : Bytes → ℕ → ℕ → Outcome Text
unfolding read_arcs first_arcs in_front dotted
decode_object_identifier data_ offset end_offset = do
  (subid, rest, next) ← read_subidentifier 0 data_ offset
  arcs ← read_arcs (end_offset - next) rest next end_offset
  ok (dotted (in_front (first_arcs subid) arcs))
