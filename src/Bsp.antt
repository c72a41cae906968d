-- ===== src/Bsp.antt =====
-- The BPP protection protocol: pySim/esim/bsp.py. The ciphers of pycryptodome, the key derivation of
-- `cryptography` and the TLV functions of pyosmocom are parameters; debug output is left out.
pub mod Padding
pub mod Segments
pub mod Frame
pub mod Sync
pub mod Tlvs
pub mod Total
pub mod Sizes
pub mod Runs
use zk_e_sim_smdp.Common.{
  ℕ, zero, suc, ◌+◌, ◌-◌, ◌*◌, ◌%◌, ◌^◌, Bool, true, false, ◌&&◌, Option, none, some, List, [], ◌∷◌,
  ◌++◌, length, take, drop, replicate, join, ltb, leb, ◌==◌, if◌then◌else◌,
}
use zk_e_sim_smdp.Common.Outcome as O
use zk_e_sim_smdp.Common.Outcome.{
  Outcome, ok, err, value_error, assertion_error, overflow_error, index_error,
}
use zk_e_sim_smdp.Common.Action.{
  Action, pure, raise, lift, gets, modify, guard, expect, for_each, ◌>>=◌, ◌>>◌,
}
use zk_e_sim_smdp.Common.Bytes.{Bytes, beq, digits_be}
use zk_e_sim_smdp.Tlv.{Tlv}

abbrev pub max_segment_size : ℕ
max_segment_size = 1020

abbrev pub blocksize : ℕ
blocksize = 16

abbrev pub l_mac : ℕ
l_mac = 8

-- `BspAlgo._get_padding`
unfoldable pub base_padding : ℕ → ℕ → ℕ → Bytes
base_padding in_len multiple padding =
    if in_len % multiple == 0 then [] else replicate (multiple - in_len % multiple) padding

-- `BspAlgoCryptAES128._get_padding`
unfoldable pub get_padding : ℕ → ℕ → ℕ → Bytes
unfolding base_padding
get_padding in_len multiple padding = 0x80 ∷ base_padding (in_len + 1) multiple padding

-- `_pad_to_multiple`, as the AES class runs it
unfoldable pub pad_to_multiple : Bytes → ℕ → Bytes
pad_to_multiple indat multiple = indat ++ get_padding (length indat) multiple 0

-- `padded.rstrip(b'\0')`
unfoldable pub rstrip_zeros : Bytes → Bytes
rstrip_zeros [] = []
rstrip_zeros (x ∷ xs) = elim (rstrip_zeros xs) [
  | [] ↦ (if x == 0 then [] else x ∷ [])
  | y ∷ ys ↦ x ∷ y ∷ ys
]

-- `stripped[:-1]` and `stripped[-1]`, for a byte string that is not empty
unfoldable pub split_last : Bytes → Option (Bytes × ℕ)
split_last [] = none
split_last (x ∷ []) = some ([], x)
split_last (x ∷ y ∷ ys) = elim (split_last (y ∷ ys)) [ none ↦ none | some (r, l) ↦ some (x ∷ r, l) ]

check_marker : Option (Bytes × ℕ) → Outcome Bytes
check_marker none = err index_error
check_marker (some (front, last)) = if last == 0x80 then ok front else err assertion_error

-- `_unpad`
unfoldable pub unpad : Bytes → Outcome Bytes
unfolding check_marker
unpad padded = check_marker (split_last (rstrip_zeros padded))

pub record CryptAlgo : Type 0 where
  pub s_enc : Bytes
  pub block_nr : ℕ

pub record MacAlgo : Type 0 where
  pub s_mac : Bytes
  pub mac_chain : Bytes

pub record BspInstance : Type 0 where
  pub c_algo : CryptAlgo
  pub m_algo : MacAlgo
  pub max_payload_size : ℕ

abbrev set_block_nr : ℕ → BspInstance → BspInstance
set_block_nr n b = record b { c_algo = record b.c_algo { block_nr = n } }

abbrev set_mac_chain : Bytes → BspInstance → BspInstance
set_mac_chain chain b = record b { m_algo = record b.m_algo { mac_chain = chain } }

-- The ciphers: which keys AES takes (`AES.new` and `CMAC.new` raise ValueError for another), AES in CBC
-- mode by key, initial vector and data, AES-CMAC by key and data, and the X9.63 key derivation by
-- secret, length and shared information. The initial vectors of the code have one block: they are zeros
-- or the encryption of one block.
pub record Ciphers : Type 0 where
  pub takes_key : Bytes → Bool
  pub aes_cbc_encrypt : Bytes → Bytes → Bytes → Bytes
  pub aes_cbc_decrypt : Bytes → Bytes → Bytes → Bytes
  pub aes_cmac : Bytes → Bytes → Bytes
  pub x963_kdf : Bytes → ℕ → Bytes → Bytes

-- The three keys that `bsp_key_derivation` returns.
pub record SessionKeys : Type 0 where
  pub s_enc : Bytes
  pub s_mac : Bytes
  pub initial_mcv : Bytes

-- `n.to_bytes(16, "big")`
to_block : ℕ → Outcome Bytes
to_block n = if ltb n (2 ^ 128) then ok (digits_be blocksize n []) else err overflow_error

-- The pieces into which the loops of `encrypt_and_mac` and `mac_only` cut the text, on fuel.
unfoldable pub segments : ℕ → ℕ → Bytes → List Bytes
segments fuel max_payload_size [] = []
segments zero max_payload_size (b ∷ bs) = []
segments (suc fuel) max_payload_size (b ∷ bs) =
    let later = segments fuel max_payload_size (drop max_payload_size (b ∷ bs)) in
    if ltb (length (b ∷ bs)) max_payload_size
    then (b ∷ bs) ∷ []
    else take max_payload_size (b ∷ bs) ∷ later

module _ (ciphers : Ciphers) (tlv : Tlv) where
  open ciphers use {takes_key, aes_cbc_encrypt, aes_cbc_decrypt, aes_cmac, x963_kdf}

  -- `_get_icv`: the encrypted block counter, which it then advances
  unfoldable pub get_icv : Action BspInstance Bytes
  unfolding to_block
  get_icv = do
    b ← gets (λ b. b)
    block ← lift (to_block b.c_algo.block_nr)
    guard (takes_key b.c_algo.s_enc) value_error
    modify (set_block_nr (b.c_algo.block_nr + 1))
    pure (aes_cbc_encrypt b.c_algo.s_enc (replicate blocksize 0) block)

  -- `BspAlgoCrypt.encrypt` with `_encrypt`, which makes a cipher of the key that `_get_icv` has tried
  unfoldable pub encrypt : Bytes → Action BspInstance Bytes
  encrypt text = do
    icv ← get_icv
    b ← gets (λ b. b)
    pure (aes_cbc_encrypt b.c_algo.s_enc icv (pad_to_multiple text blocksize))

  -- `BspAlgoCrypt.decrypt` with `_decrypt`: AES in CBC mode raises where the data are not of whole blocks
  unfoldable pub decrypt : Bytes → Action BspInstance Bytes
  decrypt ciphertext = do
    icv ← get_icv
    b ← gets (λ b. b)
    guard (length ciphertext % blocksize == 0) value_error
    lift (unpad (aes_cbc_decrypt b.c_algo.s_enc icv ciphertext))

  -- `_auth`: the full MAC becomes the chaining value, and its first eight bytes are returned
  unfoldable pub compute_mac : Bytes → Action BspInstance Bytes
  compute_mac temp_data = do
    b ← gets (λ b. b)
    guard (takes_key b.m_algo.s_mac) value_error
    let full_c_mac = aes_cmac b.m_algo.s_mac temp_data
    modify (set_mac_chain full_c_mac)
    pure (take l_mac full_c_mac)

  unfoldable pub auth : ℕ → Bytes → Action BspInstance Bytes
  unfolding compute_mac
  auth tag text = do
    guard (ltb tag 256) assertion_error
    b ← gets (λ b. b)
    let tag_and_length = tag ∷ tlv.encode_len (length text + l_mac)
    c_mac ← compute_mac (b.m_algo.mac_chain ++ (tag_and_length ++ text))
    pure (tag_and_length ++ (text ++ c_mac))

  -- `verify`: the MAC is the last eight bytes, or all of a shorter input
  unfoldable pub verify : Bytes → Action BspInstance Bytes
  unfolding compute_mac
  verify ciphertext = do
    let cut = length ciphertext - l_mac
    b ← gets (λ b. b)
    mac_computed ← compute_mac (b.m_algo.mac_chain ++ take cut ciphertext)
    guard (beq (drop cut ciphertext) mac_computed) value_error
    pure (take cut ciphertext)

  unfoldable pub encrypt_and_mac_one : ℕ → Bytes → Action BspInstance Bytes
  encrypt_and_mac_one tag plaintext = do
    b ← gets (λ b. b)
    guard (leb tag 255) assertion_error
    guard (leb (length plaintext) b.max_payload_size) assertion_error
    ciphered ← encrypt plaintext
    auth tag ciphered

  unfoldable pub encrypt_and_mac : ℕ → Bytes → Action BspInstance (List Bytes)
  encrypt_and_mac tag plaintext = do
    b ← gets (λ b. b)
    for_each (encrypt_and_mac_one tag) (segments (length plaintext) b.max_payload_size plaintext)

  unfoldable pub mac_only_one : ℕ → Bytes → Action BspInstance Bytes
  mac_only_one tag plaintext = do
    b ← gets (λ b. b)
    guard (leb tag 255) assertion_error
    guard (leb (length plaintext) b.max_payload_size) assertion_error
    maced ← auth tag plaintext
    modify (λ b. set_block_nr (b.c_algo.block_nr + 1) b)
    pure maced

  unfoldable pub mac_only : ℕ → Bytes → Action BspInstance (List Bytes)
  mac_only tag plaintext = do
    b ← gets (λ b. b)
    for_each (mac_only_one tag) (segments (length plaintext) b.max_payload_size plaintext)

  unfoldable pub demac_and_decrypt_one : Bytes → Action BspInstance Bytes
  demac_and_decrypt_one ciphertext = do
    payload ← verify ciphertext
    (val, remain) ← lift (tlv.parse_one payload)
    decrypt val

  unfoldable pub demac_and_decrypt : List Bytes → Action BspInstance Bytes
  demac_and_decrypt ciphertext_list = do
    plaintext_list ← for_each demac_and_decrypt_one ciphertext_list
    pure (join plaintext_list)

  unfoldable pub demac_only_one : Bytes → Action BspInstance Bytes
  demac_only_one ciphertext = do
    payload ← verify ciphertext
    (val, remain) ← lift (tlv.parse_one payload)
    modify (λ b. set_block_nr (b.c_algo.block_nr + 1) b)
    pure val

  unfoldable pub demac_only : List Bytes → Action BspInstance Bytes
  demac_only ciphertext_list = do
    plaintext_list ← for_each demac_only_one ciphertext_list
    pure (join plaintext_list)

  -- `BspInstance(s_enc, s_mac, initial_mcv)`
  unfoldable pub new_instance : Bytes → Bytes → Bytes → BspInstance
  new_instance s_enc s_mac initial_mcv = record {
    c_algo = record { s_enc = s_enc; block_nr = 1 };
    m_algo = record { s_mac = s_mac; mac_chain = initial_mcv };
    max_payload_size = max_segment_size - 1 - length (tlv.encode_len max_segment_size) - l_mac;
  }

  unfoldable pub bsp_key_derivation : Bytes → ℕ → ℕ → Bytes → Bytes → ℕ → Outcome SessionKeys
  bsp_key_derivation shared_secret key_type key_length host_id eid l =
      let host_id_lv = tlv.encode_len (length host_id) ++ host_id in
      let eid_lv = tlv.encode_len (length eid) ++ eid in
      let shared_info = key_type ∷ key_length ∷ (host_id_lv ++ eid_lv) in
      let out = x963_kdf shared_secret (l * 3) shared_info in
      if leb key_type 255 && leb key_length 255
      then ok (record {
        initial_mcv = take l out;
        s_enc = take l (drop l out);
        s_mac = take l (drop (2 * l) out);
      })
      else err assertion_error

  -- `BspInstance.from_kdf`
  unfoldable pub from_kdf : Bytes → ℕ → ℕ → Bytes → Bytes → Outcome BspInstance
  unfolding bsp_key_derivation new_instance
  from_kdf shared_secret key_type key_length host_id eid =
      O.◌>>=◌ (bsp_key_derivation shared_secret key_type key_length host_id eid 16)
        λ keys. ok (new_instance keys.s_enc keys.s_mac keys.initial_mcv)
