-- ===== src/Utils/DataObjects.antt =====
-- Data objects of ISO 7816-4 in pySim/utils.py: `DataObject`, `DataObjectCollection`,
-- `DataObjectChoice` and `DataObjectSequence`. What a subclass makes of the value part is a field of
-- the object; `decoded` is the value that such a call leaves in it. The BER functions of the package
-- pyosmocom are a parameter.
pub mod RoundTrip
use zk_e_sim_smdp.Common.{
  ℕ, zero, suc, ◌+◌, Bool, true, false, Option, none, some, List, [], ◌∷◌, ◌++◌, length, take, drop,
  get_elem?, join, ltb, ◌==◌, if◌then◌else◌,
}
use zk_e_sim_smdp.Common.Outcome.{
  Outcome, ok, err, value_error, index_error, key_error, guard, expect, ◌>>=◌, ◌>>◌,
}
use zk_e_sim_smdp.Common.Bytes.{Bytes}
use zk_e_sim_smdp.Common.Hex.{Text}
use zk_e_sim_smdp.Tlv.{Tlv, encode}

module _ (V : Type 0) where
  pub record DataObject : Type 0 where
    pub name : Text
    pub tag : ℕ
    pub from_bytes : Bytes → Outcome V
    pub to_bytes : V → Outcome Bytes

  -- `from_tlv`: what is decoded, and the rest
  unfoldable pub from_tlv : DataObject → Bytes → Outcome (V × Bytes)
  from_tlv obj do_ = do
    first ← expect (get_elem? do_ 0) index_error
    guard (first == obj.tag) value_error
    n ← expect (get_elem? do_ 1) index_error
    decoded ← obj.from_bytes (take n (drop 2 do_))
    ok (decoded, drop (2 + n) do_)

  unfoldable pub to_tlv : Tlv → DataObject → V → Outcome Bytes
  to_tlv tlv obj decoded = obj.to_bytes decoded >>= λ val. ok (encode tlv obj.tag val)

  -- `to_dict`: the name and what is decoded
  abbrev pub Entry : Type 0
  Entry = Text × V

  -- `DataObject.decode`
  unfoldable pub decode_object : DataObject → Bytes → Outcome (Entry × Bytes)
  unfolding from_tlv
  decode_object obj binary = do
    first ← expect (get_elem? binary 0) index_error
    guard (first == obj.tag) value_error
    (decoded, remainder) ← from_tlv obj binary
    ok ((obj.name, decoded), remainder)

  -- `members_by_tag[tag]`, where the last member of a tag counts
  unfoldable pub member_by_tag : ℕ → List DataObject → Option DataObject
  member_by_tag t [] = none
  member_by_tag t (m ∷ members) = elim (member_by_tag t members) [
    | none ↦ if m.tag == t then some m else none
    | some later ↦ some later
  ]

  -- `DataObjectCollection.decode`, on fuel
  unfoldable pub decode_collection : ℕ → List DataObject → Bytes → Outcome (List Entry × Bytes)
  unfolding from_tlv
  decode_collection fuel members [] = ok ([], [])
  decode_collection zero members (t ∷ binary) = err value_error
  decode_collection (suc fuel) members (t ∷ binary) =
      if t == 0xff
      then ok ([], t ∷ binary)
      else (expect (member_by_tag t members) value_error >>= λ obj.
          from_tlv obj (t ∷ binary) >>= λ (decoded, remainder).
          decode_collection fuel members remainder >>= λ (res, rest).
          ok ((obj.name, decoded) ∷ res, rest))

  -- `DataObjectChoice.decode`: none is None
  unfoldable pub decode_choice : List DataObject → Bytes → Outcome (Option Entry × Bytes)
  unfolding from_tlv
  decode_choice members binary = do
    t ← expect (get_elem? binary 0) index_error
    if t == 0xff
        then ok (none, binary)
        else (expect (member_by_tag t members) value_error >>= λ obj.
            from_tlv obj binary >>= λ (decoded, remainder).
            ok (some (obj.name, decoded), remainder))

  -- The elements of a sequence.
  pub data Element : Type 0 where
    single : DataObject → Element
    choice : List DataObject → Element

  unfoldable pub decode_element : Element → Bytes → Outcome (Option Entry × Bytes)
  unfolding decode_object decode_choice
  decode_element (single obj) binary =
      decode_object obj binary >>= λ (r, remainder). ok (some r, remainder)
  decode_element (choice members) binary = decode_choice members binary

  -- `if r: res.append(r)`
  abbrev pub keep : Option Entry → List Entry → List Entry
  keep none res = res
  keep (some r) res = r ∷ res

  -- `DataObjectSequence.decode`
  unfoldable pub decode_sequence : List Element → Bytes → Outcome (List Entry × Bytes)
  unfolding decode_element
  decode_sequence [] binary = ok ([], binary)
  decode_sequence (e ∷ sequence) binary = do
    (r, remainder) ← decode_element e binary
    (res, rest) ← decode_sequence sequence remainder
    ok (keep r res, rest)

  abbrev keep_all : List Entry → List (List Entry) → List (List Entry)
  keep_all [] res = res
  keep_all (r ∷ rs) res = (r ∷ rs) ∷ res

  -- `decode_multi`, on fuel: a round that takes nothing is the last
  unfoldable pub decode_multi : ℕ → List Element → Bytes → Outcome (List (List Entry) × Bytes)
  unfolding decode_sequence
  decode_multi fuel sequence [] = ok ([], [])
  decode_multi zero sequence (b ∷ do_) = err value_error
  decode_multi (suc fuel) sequence (b ∷ do_) =
      decode_sequence sequence (b ∷ do_) >>= λ (r, remainder).
      let later = decode_multi fuel sequence remainder in
      if ltb (length remainder) (length (b ∷ do_))
      then (later >>= λ (res, rest). ok (keep_all r res, rest))
      else ok (keep_all r [], remainder)
