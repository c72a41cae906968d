-- ===== src/Bsp/Sizes.antt =====
-- The sizes of what the sender puts out, against the maximal segment size of SGP.22.
use zk_e_sim_smdp.Common.{
  ℕ, ◌+◌, ◌≤◌, ◌<◌, ◌≡◌, ◌↔◌, length, length-append, arith, ltb, if◌then◌else◌,
}
use zk_e_sim_smdp.Common.Outcome.{ok}
use zk_e_sim_smdp.Common.Action.{bind_returned}
use zk_e_sim_smdp.Common.Bytes.{Bytes}
use zk_e_sim_smdp.Tlv.{Tlv, TlvLaws}
use zk_e_sim_smdp.Bsp.{
  Ciphers, BspInstance, max_segment_size, encrypt, auth, encrypt_and_mac_one, mac_only_one,
  new_instance,
}
use zk_e_sim_smdp.Bsp.Frame.{CipherLaws, front, auth_lem, length-mac, length-encrypt_lem}
use zk_e_sim_smdp.Bsp.Sync.{encrypt_and_mac_one_allowed, mac_only_one_allowed}

module _ (ciphers : Ciphers) (tlv : Tlv) (laws : CipherLaws ciphers) (tlv_laws : TlvLaws tlv) where
  -- A length below 65536 takes one, two or three bytes.
  abbrev header : ℕ → ℕ
  header n = if ltb n 128 then 1 else if ltb n 256 then 2 else 3

  length-encode_len : (n : ℕ) → n < 65536 → length (tlv.encode_len n) ≡ header n
  length-encode_len n h =
      ground
        (arith, tlv_laws.encode_len_one n, tlv_laws.encode_len_two n, tlv_laws.encode_len_three n)

  -- A new instance takes 1008 bytes of payload: 1020 less one byte of tag, three of length and the
  -- MAC.
  pub max_payload_size-new_instance :
      (s_enc s_mac initial_mcv : Bytes)
      → (new_instance ciphers tlv s_enc s_mac initial_mcv).max_payload_size ≡ 1008
  unfolding new_instance
  max_payload_size-new_instance s_enc s_mac initial_mcv =
      omega (arith, length-encode_len 1020 (omega arith))

  length-auth :
      (tag : ℕ) (text c : Bytes) (b b' : BspInstance)
      → length text + 8 < 65536
      → auth ciphers tlv tag text b ≡ (ok c, b')
      → length c ≡ 1 + header (length text + 8) + length text + 8
  length-auth tag text c b b' small h =
      let (taken, sealed, after) = auth_lem ciphers tlv tag text c b b' h in
      let mac = length-mac ciphers tlv laws b (front ciphers tlv tag text) in
      let len = length-encode_len (length text + 8) small in
      rw sealed (rw (length-append, length-append, mac, len) (omega arith))

  -- Where `max_payload_size` is that of a new instance, an encrypted segment keeps to the maximal
  -- segment size exactly when its text is shorter than `max_payload_size`: padding adds a whole
  -- block to a text of 1008 bytes.
  pub encrypt_and_mac_one_size :
      (tag : ℕ) (text c : Bytes) (b b' : BspInstance)
      → b.max_payload_size ≡ 1008
      → encrypt_and_mac_one ciphers tlv tag text b ≡ (ok c, b')
      → (length c ≤ max_segment_size) ↔ (length text < b.max_payload_size)
  unfolding encrypt_and_mac_one
  encrypt_and_mac_one_size tag text c b b' full h =
      let (low, fits) = encrypt_and_mac_one_allowed ciphers tlv laws tlv_laws tag text c b b' h in
      let short : length text ≤ 1008 = ground arith in
      bind_returned (encrypt ciphers tlv text) _ b b' (rw (low, fits) at h) λ ciphered s e k.
        let n = length-encrypt_lem ciphers tlv laws text ciphered b s e in
        let m = length-auth tag ciphered c s b' (omega arith) k in
        (λ x. ground arith, λ x. ground arith)

  -- Where `max_payload_size` is that of a new instance, a segment with a MAC only keeps to the maximal
  -- segment size.
  pub mac_only_one_size :
      (tag : ℕ) (text c : Bytes) (b b' : BspInstance)
      → b.max_payload_size ≡ 1008
      → mac_only_one ciphers tlv tag text b ≡ (ok c, b')
      → length c ≤ max_segment_size
  unfolding mac_only_one
  mac_only_one_size tag text c b b' full h =
      let (low, fits) = mac_only_one_allowed ciphers tlv laws tlv_laws tag text c b b' h in
      let short : length text ≤ 1008 = ground arith in
      bind_returned (auth ciphers tlv tag text) _ b b' (rw (low, fits) at h) λ maced s e k.
        let m = length-auth tag text maced b s (omega arith) e in
        let same : maced ≡ c = cc in rw (← same) (ground arith)
