-- ===== src/Bsp/Sync.antt =====
-- Sender and receiver stay in step: what one instance protects, an instance in the same state opens,
-- and both are in the same state again.
use zk_e_sim_smdp.Common.{
  ℕ, ◌+◌, ◌^◌, ◌≤◌, ◌<◌, ◌≡◌, refl, List, [], ◌∷◌, true, length, drop, take_all, All, leb, arith,
  ap, sym, ◌∙◌,
}
use zk_e_sim_smdp.Common.Outcome.{ok}
use zk_e_sim_smdp.Common.Action.{bind_returned, for_each_inverse}
use zk_e_sim_smdp.Common.Bytes.{Bytes}
use zk_e_sim_smdp.Tlv.{Tlv, TlvLaws, IsShortTag}
use zk_e_sim_smdp.Bsp.{
  Ciphers, BspInstance, set_block_nr, l_mac, encrypt, auth, encrypt_and_mac_one,
  demac_and_decrypt_one, mac_only_one, demac_only_one, segments, encrypt_and_mac, demac_and_decrypt,
  mac_only, demac_only,
}
use native.Mathlib.Nat.{le_refl}
use zk_e_sim_smdp.Bsp.Segments.{join-segments, segments_short}
use zk_e_sim_smdp.Bsp.Frame.{
  CipherLaws, front, full_mac, verify-auth, encrypt_frame, decrypt_frame, length-encrypt_lem,
  decrypt-encrypt_lem,
}

module _ (ciphers : Ciphers) (tlv : Tlv) where
  module _ (laws : CipherLaws ciphers) (tlv_laws : TlvLaws tlv) where
    parse_front :
        (tag : ℕ) (text : Bytes)
        → IsShortTag tag
        → length text + 8 < 2 ^ 32
        → (rest : Bytes) × (tlv.parse_one (front ciphers tlv tag text) ≡ ok (text, rest))
    parse_front tag text short small =
        let n : ℕ = length text + l_mac in
        (
          drop n text,
          tlv_laws.parse_one_lem tag n text short small
              ∙ ap (λ (x : Bytes). ok (x, drop n text)) (take_all text n (omega arith)),
        )

    pub encrypt_and_mac_one_allowed :
        (tag : ℕ) (text c : Bytes) (b b' : BspInstance)
        → encrypt_and_mac_one ciphers tlv tag text b ≡ (ok c, b')
        → (leb tag 255 ≡ true) × (leb (length text) b.max_payload_size ≡ true)
    unfolding encrypt_and_mac_one
    encrypt_and_mac_one_allowed tag text c b b' h = (ground arith, ground arith)

    -- What `encrypt_and_mac_one` makes of a text `demac_and_decrypt_one` turns back into the text.
    pub demac-encrypt_one :
        (tag : ℕ) (text c : Bytes) (b b' : BspInstance)
        → IsShortTag tag
        → length text < 2 ^ 31
        → encrypt_and_mac_one ciphers tlv tag text b ≡ (ok c, b')
        → demac_and_decrypt_one ciphers tlv c b ≡ (ok text, b')
    unfolding encrypt_and_mac_one
    demac-encrypt_one tag text c b b' short small h =
        let (low, fits) = encrypt_and_mac_one_allowed tag text c b b' h in
        bind_returned (encrypt ciphers tlv text) _ b b' (rw (low, fits) at h) λ ciphered s e k.
          let chain : Bytes = full_mac ciphers tlv s (front ciphers tlv tag ciphered) in
          let (verified, after) =
            verify-auth ciphers tlv laws tag ciphered c s b' b k
              (encrypt_frame ciphers tlv text ciphered b s e).0 in
          let opened =
            decrypt_frame ciphers tlv text ciphered chain b s
              (decrypt-encrypt_lem ciphers tlv laws text ciphered b s e) in
          let room : length ciphered + 8 < 2 ^ 32 =
            omega (arith, length-encrypt_lem ciphers tlv laws text ciphered b s e) in
          let (rest, parsed) = parse_front tag ciphered short room in
          unfold demac_and_decrypt_one in rw (verified, parsed, opened, after)

    pub mac_only_one_allowed :
        (tag : ℕ) (text c : Bytes) (b b' : BspInstance)
        → mac_only_one ciphers tlv tag text b ≡ (ok c, b')
        → (leb tag 255 ≡ true) × (leb (length text) b.max_payload_size ≡ true)
    unfolding mac_only_one
    mac_only_one_allowed tag text c b b' h = (ground arith, ground arith)

    -- What `mac_only_one` makes of a text `demac_only_one` turns back into the text.
    pub demac-mac_one :
        (tag : ℕ) (text c : Bytes) (b b' : BspInstance)
        → IsShortTag tag
        → length text < 2 ^ 31
        → mac_only_one ciphers tlv tag text b ≡ (ok c, b')
        → demac_only_one ciphers tlv c b ≡ (ok text, b')
    unfolding mac_only_one
    demac-mac_one tag text c b b' short small h =
        let (low, fits) = mac_only_one_allowed tag text c b b' h in
        bind_returned (auth ciphers tlv tag text) _ b b' (rw (low, fits) at h) λ maced s e k.
          let (verified, after) = verify-auth ciphers tlv laws tag text maced b s b e refl in
          let (rest, parsed) = parse_front tag text short (omega arith) in
          let same : maced ≡ c = cc in
          let end : set_block_nr (s.c_algo.block_nr + 1) s ≡ b' = cc in
          let counted =
            ap (λ (x : BspInstance). set_block_nr (x.c_algo.block_nr + 1) x) (sym after) in
          unfold demac_only_one in
          rw (← same)
            (rw (verified, parsed) (ap (λ (x : BspInstance). (ok text, x)) (counted ∙ end)))

    pub segments_fit :
        (limit : ℕ) (xs : List Bytes)
        → limit < 2 ^ 31
        → All (λ x. length x ≤ limit) xs
        → All (λ x. length x < 2 ^ 31) xs
    segments_fit limit [] h a = tt
    segments_fit limit (x ∷ xs) h (hx, hxs) = (omega arith, segments_fit limit xs h hxs)

    -- What `encrypt_and_mac` makes of a text of any length, `demac_and_decrypt` turns back into it,
    -- from the same state to the same state.
    pub demac-encrypt :
        (tag : ℕ) (text : Bytes) (cs : List Bytes) (b b' : BspInstance)
        → IsShortTag tag
        → 0 < b.max_payload_size
        → b.max_payload_size < 2 ^ 31
        → encrypt_and_mac ciphers tlv tag text b ≡ (ok cs, b')
        → demac_and_decrypt ciphers tlv cs b ≡ (ok text, b')
    unfolding encrypt_and_mac demac_and_decrypt
    demac-encrypt tag text cs b b' short some_room limit h =
        let whole = join-segments (length text) b.max_payload_size text some_room (le_refl _) in
        let fit =
          segments_fit b.max_payload_size (segments (length text) b.max_payload_size text) limit
            (segments_short (length text) b.max_payload_size text) in
        rw
          (for_each_inverse (λ x. length x < 2 ^ 31) (encrypt_and_mac_one ciphers tlv tag)
            (demac_and_decrypt_one ciphers tlv)
            (λ x y s s' small e. demac-encrypt_one tag x y s s' short small e)
            (segments (length text) b.max_payload_size text) cs b b' fit h)
          (rw whole)

    -- What `mac_only` makes of a text under a tag of one byte, `demac_only` turns back into it, from the
    -- same state to the same state, where a segment has room for at least one byte and for fewer than
    -- 2 ^ 31.
    pub demac-mac :
        (tag : ℕ) (text : Bytes) (cs : List Bytes) (b b' : BspInstance)
        → IsShortTag tag
        → 0 < b.max_payload_size
        → b.max_payload_size < 2 ^ 31
        → mac_only ciphers tlv tag text b ≡ (ok cs, b')
        → demac_only ciphers tlv cs b ≡ (ok text, b')
    unfolding mac_only demac_only
    demac-mac tag text cs b b' short some_room limit h =
        let whole = join-segments (length text) b.max_payload_size text some_room (le_refl _) in
        let fit =
          segments_fit b.max_payload_size (segments (length text) b.max_payload_size text) limit
            (segments_short (length text) b.max_payload_size text) in
        rw
          (for_each_inverse (λ x. length x < 2 ^ 31) (mac_only_one ciphers tlv tag)
            (demac_only_one ciphers tlv)
            (λ x y s s' small e. demac-mac_one tag x y s s' short small e)
            (segments (length text) b.max_payload_size text) cs b b' fit h)
          (rw whole)
