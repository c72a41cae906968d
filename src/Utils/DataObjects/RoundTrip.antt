-- ===== src/Utils/DataObjects/RoundTrip.antt =====
-- A collection of data objects of pySim/utils.py is read back from the objects' own encodings.
use zk_e_sim_smdp.Common.{
  ℕ, zero, suc, ◌+◌, ◌≤◌, ◌<◌, ◌≡◌, ◌⊎◌, inl, inr, refl, sym, ap, ◌∙◌, true, false, some, List, [],
  ◌∷◌, ◌++◌, All, length, length-append, take-append, drop-append, ◌==◌, arith,
}
use mathlib.Core.List.{append_assoc}
use zk_e_sim_smdp.Common.Outcome.{Outcome, ok, bind_ok, ◌>>=◌}
use zk_e_sim_smdp.Common.Bytes.{Bytes}
use zk_e_sim_smdp.Tlv.{Tlv, TlvLaws, IsShortTag}
use zk_e_sim_smdp.Utils.DataObjects.{
  DataObject, Entry, from_tlv, to_tlv, member_by_tag, decode_collection,
}

module _ (V : Type 0) (tlv : Tlv) (laws : TlvLaws tlv) where
  -- The encodings of some objects, one after the other.
  unfoldable pub encode_all : List (DataObject V × V) → Outcome Bytes
  unfolding to_tlv
  encode_all [] = ok []
  encode_all ((obj, v) ∷ items) =
      to_tlv V tlv obj v >>= λ t. encode_all items >>= λ ts. ok (t ++ ts)

  -- An object that reads what it writes, in fewer than 128 bytes and under a tag of one byte, which is
  -- its own among the members.
  pub record Reads (members : List (DataObject V)) (item : DataObject V × V) : Type 0 where
    pub short_tag : IsShortTag item.0.tag
    pub own_tag : member_by_tag V item.0.tag members ≡ some item.0
    pub reads : (b : Bytes) → item.0.to_bytes item.1 ≡ ok b → item.0.from_bytes b ≡ ok item.1
    pub short_value : (b : Bytes) → item.0.to_bytes item.1 ≡ ok b → length b < 128

  -- One object is read from its encoding, whatever follows it.
  from_tlv-to_tlv :
      (members : List (DataObject V)) (obj : DataObject V) (v : V) (t rest : Bytes)
      → Reads members (obj, v)
      → to_tlv V tlv obj v ≡ ok t
      → (value : Bytes) × (t ≡ obj.tag ∷ value) × (from_tlv V obj (t ++ rest) ≡ ok (v, rest))
  unfolding to_tlv from_tlv
  from_tlv-to_tlv members obj v t rest r h = bind_ok (obj.to_bytes v) _ h λ val e k.
      let n : ℕ = length val in
      let is : t ≡ obj.tag ∷ n ∷ val =
        sym (unwrap k)
        ∙ rw
            (laws.encode_tag_short obj.tag r.short_tag, laws.encode_len_one n (r.short_value val e))
            refl in
      let same : (obj.tag == obj.tag) ≡ true = ground arith in
      (
        n ∷ val,
        is,
        rw is (
            rw
              (
                same,
                take-append val rest n refl,
                r.reads val e,
                drop-append (obj.tag ∷ n ∷ val) rest (2 + n) (omega arith),
              )
              refl),
      )
    where
      unwrap : {x y : Bytes} → ok x ≡ ok y → x ≡ y
      unwrap e = cc

  -- What is left when a collection is done: nothing, or memory that was not written to.
  unfoldable pub Done : Bytes → Type 0
  Done rest = (rest ≡ []) ⊎ ((more : Bytes) × (rest ≡ 0xff ∷ more))

  abbrev pub entries : List (DataObject V × V) → List (Entry V)
  entries [] = []
  entries ((obj, v) ∷ items) = (obj.name, v) ∷ entries items

  decode-Done :
      (fuel : ℕ) (members : List (DataObject V)) (rest : Bytes)
      → Done rest
      → length rest ≤ fuel
      → decode_collection V fuel members rest ≡ ok ([], rest)
  unfolding decode_collection Done
  decode-Done fuel members rest (inl is) h = rw is refl
  decode-Done zero members rest (inr (more, is)) h = absurd (omega (arith, ap length is))
  decode-Done (suc fuel) members rest (inr (more, is)) h = rw is refl

  -- One object in front of what is decoded.
  decode_first :
      (fuel : ℕ) (members : List (DataObject V)) (obj : DataObject V) (v : V)
      (t value behind rest : Bytes) (res : List (Entry V))
      → Reads members (obj, v)
      → t ≡ obj.tag ∷ value
      → from_tlv V obj (t ++ behind) ≡ ok (v, behind)
      → decode_collection V fuel members behind ≡ ok (res, rest)
      → decode_collection V (suc fuel) members (t ++ behind) ≡ ok ((obj.name, v) ∷ res, rest)
  unfolding decode_collection
  decode_first fuel members obj v t value behind rest res r front read later =
      let written : (obj.tag == 0xff) ≡ false = ground (arith, r.short_tag.0, r.short_tag.1) in
      let read' : from_tlv V obj (obj.tag ∷ (value ++ behind)) ≡ ok (v, behind) =
        ap (λ (x : Bytes). from_tlv V obj (x ++ behind)) (sym front) ∙ read in
      rw front (rw (written, r.own_tag, read', later) refl)

  -- Objects that read what they write, in any order and any number, are read back from their
  -- encodings, up to the end or to memory that was not written to, with fuel for every byte.
  pub decode_collection-encode_all :
      (fuel : ℕ) (members : List (DataObject V)) (items : List (DataObject V × V))
      (bin rest : Bytes)
      → All (Reads members) items
      → encode_all items ≡ ok bin
      → Done rest
      → length (bin ++ rest) ≤ fuel
      → decode_collection V fuel members (bin ++ rest) ≡ ok (entries items, rest)
  unfolding encode_all
  decode_collection-encode_all fuel members [] bin rest h e done enough =
      let empty : [] ≡ bin = cc in
      rw (← empty) (
        decode-Done fuel members rest done
          (omega (arith, enough, ap length empty, length-append bin rest)))
  decode_collection-encode_all zero members ((obj, v) ∷ items) bin rest (h, hs) e done enough =
      bind_ok (to_tlv V tlv obj v) _ e λ t e₁ k₁. bind_ok (encode_all items) _ k₁ λ ts e₂ k₂.
        let (value, front, read) = from_tlv-to_tlv members obj v t (ts ++ rest) h e₁ in
        let all : t ++ ts ≡ bin = cc in
        absurd (
          omega (arith, ap length all, ap length front, length-append t ts, length-append bin rest))
  decode_collection-encode_all (suc fuel) members ((obj, v) ∷ items) bin rest (h, hs) e done
        enough =
      bind_ok (to_tlv V tlv obj v) _ e λ t e₁ k₁. bind_ok (encode_all items) _ k₁ λ ts e₂ k₂.
        let behind : Bytes = ts ++ rest in
        let (value, front, read) = from_tlv-to_tlv members obj v t behind h e₁ in
        let all : t ++ ts ≡ bin = cc in
        let parts : bin ++ rest ≡ t ++ behind =
          ap (λ (x : Bytes). x ++ rest) (sym all) ∙ append_assoc t ts rest in
        let size = length-append t behind in
        let fewer : length behind ≤ fuel =
          omega (arith, ap length parts, ap length front, size, enough) in
        rw parts (
          decode_first fuel members obj v t value behind rest (entries items) h front read
            (decode_collection-encode_all fuel members items ts rest hs e₂ done fewer))
