-- ===== src/Bsp/Tlvs.antt =====
-- What the sender puts out is a sequence of TLVs, and its segment size does not change.
use zk_e_sim_smdp.Common.{
  ℕ, ◌+◌, ◌^◌, ◌<◌, ◌≡◌, refl, ◌∷◌, ◌++◌, List, length, length-append, All, take, arith, ap, ◌∙◌,
}
use mathlib.Core.List.{append_assoc}
use zk_e_sim_smdp.Common.Outcome.{ok}
use zk_e_sim_smdp.Common.Action.{bind_returned, for_each_each}
use zk_e_sim_smdp.Common.Bytes.{Bytes}
use zk_e_sim_smdp.Tlv.{Tlv, TlvLaws, IsShortTag, encode}
use zk_e_sim_smdp.Bsp.{
  Ciphers, BspInstance, set_block_nr, l_mac, encrypt as encipher, auth, encrypt_and_mac_one,
  mac_only_one, segments, encrypt_and_mac, mac_only,
}
use zk_e_sim_smdp.Bsp.Segments.{segments_short}
use zk_e_sim_smdp.Bsp.Frame.{
  CipherLaws, front, full_mac, auth_lem, length-mac, encrypt_frame, length-encrypt_lem,
}
use zk_e_sim_smdp.Bsp.Sync.{encrypt_and_mac_one_allowed, mac_only_one_allowed, segments_fit}

-- A TLV of a tag of one byte, whose value is shorter than 2 ^ 32 bytes.
unfoldable pub IsTlv : Tlv → ℕ → Bytes → Type 0
IsTlv tlv tag c =
    (value : Bytes) × (rest : Bytes) × (c ≡ encode tlv tag value)
    × (c ≡ tag ∷ rest)
    × (length value < 2 ^ 32)

module _ (ciphers : Ciphers) (tlv : Tlv) (laws : CipherLaws ciphers) (tlv_laws : TlvLaws tlv) where
  auth-IsTlv :
      (tag : ℕ) (text c : Bytes) (b b' : BspInstance)
      → IsShortTag tag
      → length text + 8 < 2 ^ 32
      → auth ciphers tlv tag text b ≡ (ok c, b')
      → IsTlv tlv tag c × (b'.max_payload_size ≡ b.max_payload_size)
  unfolding IsTlv
  auth-IsTlv tag text c b b' short small h =
      let (taken, sealed, after) = auth_lem ciphers tlv tag text c b b' h in
      let mac : Bytes = take l_mac (full_mac ciphers tlv b (front ciphers tlv tag text)) in
      let eight : length mac ≡ 8 = length-mac ciphers tlv laws b (front ciphers tlv tag text) in
      let size : length (text ++ mac) ≡ length text + 8 = omega (arith, length-append text mac) in
      let len : Bytes = tlv.encode_len (length text + 8) in
      let spread : c ≡ tag ∷ (len ++ (text ++ mac)) =
        sealed ∙ ap (λ (x : Bytes). tag ∷ x) (append_assoc len text mac) in
      (
        (
          text ++ mac,
          len ++ (text ++ mac),
          rw (tlv_laws.encode_tag_short tag short, size) spread,
          spread,
          omega arith,
        ),
        rw after,
      )

  encrypt_and_mac_one-IsTlv :
      (tag : ℕ) (text c : Bytes) (b b' : BspInstance)
      → IsShortTag tag
      → length text < 2 ^ 31
      → encrypt_and_mac_one ciphers tlv tag text b ≡ (ok c, b')
      → IsTlv tlv tag c × (b'.max_payload_size ≡ b.max_payload_size)
  unfolding encrypt_and_mac_one
  encrypt_and_mac_one-IsTlv tag text c b b' short small h =
      let (low, fits) = encrypt_and_mac_one_allowed ciphers tlv laws tlv_laws tag text c b b' h in
      bind_returned (encipher ciphers tlv text) _ b b' (rw (low, fits) at h) λ ciphered s e k.
        let room : length ciphered + 8 < 2 ^ 32 =
          omega (arith, length-encrypt_lem ciphers tlv laws text ciphered b s e) in
        let (is_tlv, size) = auth-IsTlv tag ciphered c s b' short room k in
        (is_tlv, size ∙ (encrypt_frame ciphers tlv text ciphered b s e).1)

  mac_only_one-IsTlv :
      (tag : ℕ) (text c : Bytes) (b b' : BspInstance)
      → IsShortTag tag
      → length text < 2 ^ 31
      → mac_only_one ciphers tlv tag text b ≡ (ok c, b')
      → IsTlv tlv tag c × (b'.max_payload_size ≡ b.max_payload_size)
  unfolding mac_only_one
  mac_only_one-IsTlv tag text c b b' short small h =
      let (low, fits) = mac_only_one_allowed ciphers tlv laws tlv_laws tag text c b b' h in
      bind_returned (auth ciphers tlv tag text) _ b b' (rw (low, fits) at h) λ maced s e k.
        let same : maced ≡ c = cc in
        let end : set_block_nr (s.c_algo.block_nr + 1) s ≡ b' = cc in
        let (is_tlv, size) = auth-IsTlv tag text maced b s short (omega arith) e in
        rw (← same) (is_tlv, rw (← end) size)

  pub encrypt_and_mac-IsTlv :
      (tag : ℕ) (text : Bytes) (cs : List Bytes) (b b' : BspInstance)
      → IsShortTag tag
      → b.max_payload_size < 2 ^ 31
      → encrypt_and_mac ciphers tlv tag text b ≡ (ok cs, b')
      → All (IsTlv tlv tag) cs × (b'.max_payload_size ≡ b.max_payload_size)
  unfolding encrypt_and_mac
  encrypt_and_mac-IsTlv tag text cs b b' short limit h =
      for_each_each (λ x. length x < 2 ^ 31) (IsTlv tlv tag)
        (λ s. s.max_payload_size ≡ b.max_payload_size) (encrypt_and_mac_one ciphers tlv tag)
        (λ x y s s' small same e.
          let (t, kept) = encrypt_and_mac_one-IsTlv tag x y s s' short small e in (t, kept ∙ same))
        (segments (length text) b.max_payload_size text) cs b b'
        (segments_fit ciphers tlv laws tlv_laws b.max_payload_size
          (segments (length text) b.max_payload_size text) limit
          (segments_short (length text) b.max_payload_size text))
        refl h

  pub mac_only-IsTlv :
      (tag : ℕ) (text : Bytes) (cs : List Bytes) (b b' : BspInstance)
      → IsShortTag tag
      → b.max_payload_size < 2 ^ 31
      → mac_only ciphers tlv tag text b ≡ (ok cs, b')
      → All (IsTlv tlv tag) cs × (b'.max_payload_size ≡ b.max_payload_size)
  unfolding mac_only
  mac_only-IsTlv tag text cs b b' short limit h =
      for_each_each (λ x. length x < 2 ^ 31) (IsTlv tlv tag)
        (λ s. s.max_payload_size ≡ b.max_payload_size) (mac_only_one ciphers tlv tag)
        (λ x y s s' small same e.
          let (t, kept) = mac_only_one-IsTlv tag x y s s' short small e in (t, kept ∙ same))
        (segments (length text) b.max_payload_size text) cs b b'
        (segments_fit ciphers tlv laws tlv_laws b.max_payload_size
          (segments (length text) b.max_payload_size text) limit
          (segments_short (length text) b.max_payload_size text))
        refl h
