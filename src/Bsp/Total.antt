-- ===== src/Bsp/Total.antt =====
-- The sender succeeds: on a tag of one byte and any text, as long as AES takes both keys and the block
-- counter fits its sixteen bytes, `encrypt_and_mac` returns segments, and the receiver gets the text back.
use zk_e_sim_smdp.Common.{
  ℕ, suc, ◌+◌, ◌^◌, ◌≤◌, ◌<◌, ◌≡◌, refl, List, length, leb, true, [], ◌∷◌, ◌++◌, take, replicate,
  lt→ltb, arith,
}
use zk_e_sim_smdp.Common.Outcome.{ok}
use zk_e_sim_smdp.Common.Action.{for_each_total}
use zk_e_sim_smdp.Common.Bytes.{Bytes, digits_be}
use zk_e_sim_smdp.Tlv.{Tlv, TlvLaws, IsShortTag}
use zk_e_sim_smdp.Bsp.{
  Ciphers, BspInstance, blocksize, l_mac, pad_to_multiple, set_block_nr, set_mac_chain, get_icv,
  encrypt, auth, encrypt_and_mac_one, encrypt_and_mac, demac_and_decrypt, segments,
}
use zk_e_sim_smdp.Bsp.Segments.{segments_short, length-segments}
use zk_e_sim_smdp.Bsp.Frame.{CipherLaws, front, full_mac}
use zk_e_sim_smdp.Bsp.Sync.{demac-encrypt}

module _ (ciphers : Ciphers) (tlv : Tlv) where
  -- AES takes the keys of the instance.
  abbrev pub Keyed : BspInstance → Type 0
  Keyed b = (ciphers.takes_key b.c_algo.s_enc ≡ true) × (ciphers.takes_key b.m_algo.s_mac ≡ true)

  -- The counter has room for `n` more blocks, and AES takes the keys.
  abbrev HasRoom : ℕ → ℕ → BspInstance → Type 0
  HasRoom limit n b = (b.c_algo.block_nr + n ≤ 2 ^ 128) × (b.max_payload_size ≡ limit) × Keyed b

  get_icv_total :
      (b : BspInstance)
      → b.c_algo.block_nr < 2 ^ 128
      → ciphers.takes_key b.c_algo.s_enc ≡ true
      → (icv : Bytes) × (get_icv ciphers tlv b ≡ (ok icv, set_block_nr (b.c_algo.block_nr + 1) b))
  unfolding get_icv
  get_icv_total b h taken = (
    ciphers.aes_cbc_encrypt b.c_algo.s_enc (replicate blocksize 0)
        (digits_be blocksize b.c_algo.block_nr []),
    rw (lt→ltb b.c_algo.block_nr (2 ^ 128) h, taken),
  )

  encrypt_total :
      (text : Bytes) (b : BspInstance)
      → b.c_algo.block_nr < 2 ^ 128
      → ciphers.takes_key b.c_algo.s_enc ≡ true
      → (c : Bytes) × (encrypt ciphers tlv text b ≡ (ok c, set_block_nr (b.c_algo.block_nr + 1) b))
  unfolding encrypt
  encrypt_total text b h taken =
      let (icv, e) = get_icv_total b h taken in
      (ciphers.aes_cbc_encrypt b.c_algo.s_enc icv (pad_to_multiple text blocksize), rw e)

  auth_total :
      (tag : ℕ) (text : Bytes) (b : BspInstance)
      → tag < 256
      → ciphers.takes_key b.m_algo.s_mac ≡ true
      → (c : Bytes) × (chain : Bytes) × (auth ciphers tlv tag text b
          ≡ (ok c, set_mac_chain chain b))
  unfolding auth
  auth_total tag text b h taken =
      let chain : Bytes = full_mac ciphers tlv b (front ciphers tlv tag text) in
      (
        tag ∷ (tlv.encode_len (length text + l_mac) ++ (text ++ take l_mac chain)),
        chain,
        rw (lt→ltb tag 256 h, taken),
      )

  one_total :
      (tag limit : ℕ) (text : Bytes) (n : ℕ) (b : BspInstance)
      → tag < 256
      → length text ≤ limit
      → HasRoom limit (suc n) b
      → (c : Bytes) × (b' : BspInstance) × (encrypt_and_mac_one ciphers tlv tag text b ≡ (ok c, b'))
        × HasRoom limit n b'
  unfolding encrypt_and_mac_one
  one_total tag limit text n b small fits (room, same, (enc, mac)) =
      let (ciphered, e) = encrypt_total text b (omega arith) enc in
      let s : BspInstance = set_block_nr (b.c_algo.block_nr + 1) b in
      let (c, chain, k) = auth_total tag ciphered s small mac in
      let low : leb tag 255 ≡ true = ground arith in
      let allowed : leb (length text) b.max_payload_size ≡ true = ground arith in
      (c, set_mac_chain chain s, rw (low, allowed) (rw e k), (omega arith, same, (enc, mac)))

  module _ (laws : CipherLaws ciphers) (tlv_laws : TlvLaws tlv) where
    -- On a tag of one byte and any text `encrypt_and_mac` returns segments, where AES takes both keys of
    -- the instance, the block counter stays within sixteen bytes and a segment has room for at least one byte and for fewer than
    -- 2 ^ 31, and from the sender's old state `demac_and_decrypt` turns them
    -- back into the text and reaches the sender's new state.
    pub demac-encrypt_total :
        (tag : ℕ) (text : Bytes) (b : BspInstance)
        → IsShortTag tag
        → Keyed b
        → 0 < b.max_payload_size
        → b.max_payload_size < 2 ^ 31
        → b.c_algo.block_nr + length text ≤ 2 ^ 128
        → (cs : List Bytes) × (b' : BspInstance) × (encrypt_and_mac ciphers tlv tag text b
            ≡ (ok cs, b'))
          × (demac_and_decrypt ciphers tlv cs b ≡ (ok text, b'))
    demac-encrypt_total tag text b short keyed some_room limit room =
        let parts : List Bytes = segments (length text) b.max_payload_size text in
        let count : length parts ≤ length text =
          length-segments (length text) b.max_payload_size text some_room in
        let (cs, b', e, i) =
          for_each_total (λ x. length x ≤ b.max_payload_size) (HasRoom b.max_payload_size)
            (encrypt_and_mac_one ciphers tlv tag)
            (λ x n s fits i. one_total tag b.max_payload_size x n s short.0 fits i) parts b
            (segments_short (length text) b.max_payload_size text) (omega arith, refl, keyed) in
        let sent : encrypt_and_mac ciphers tlv tag text b ≡ (ok cs, b') =
          unfold encrypt_and_mac in e in
        (
          cs,
          b',
          sent,
          demac-encrypt ciphers tlv laws tlv_laws tag text cs b b' short some_room limit sent,
        )
