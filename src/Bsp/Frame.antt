-- ===== src/Bsp/Frame.antt =====
-- What one call of the cipher and of the MAC does to an instance: `decrypt` undoes `encrypt`, `verify`
-- undoes `auth`, and the block counter and the MAC chain do not meet.
use zk_e_sim_smdp.Common.{
  ℕ, ◌+◌, ◌-◌, ◌*◌, ◌/◌, ◌%◌, ◌^◌, ◌≡◌, refl, [], ◌∷◌, ◌++◌, length, length-append, length-take,
  take, take-append, drop-append, ltb, inl, inr, true, ◌==◌, ==_iff, Bool-cases, arith, ap, sym,
  ◌∙◌,
}
use mathlib.Core.List.{append_assoc}
use zk_e_sim_smdp.Common.Outcome.{ok}
use zk_e_sim_smdp.Common.Action.{bind_returned}
use zk_e_sim_smdp.Common.Bytes.{Bytes, beq_refl}
use zk_e_sim_smdp.Tlv.{Tlv}
use zk_e_sim_smdp.Bsp.{
  Ciphers, BspInstance, set_mac_chain, blocksize, unpad, pad_to_multiple, l_mac, get_icv, encrypt,
  decrypt, auth, verify,
}
use zk_e_sim_smdp.Bsp.Padding.{length-pad_to_multiple, unpad-pad_to_multiple}

-- What the code relies on of the ciphers: CBC decryption with the same key and initial vector undoes
-- encryption of whole blocks, which keeps the length, and the MAC has 16 bytes.
pub record CipherLaws (c : Ciphers) : Type 0 where
  pub decrypt-encrypt :
      (key iv text : Bytes)
      → length text % 16 ≡ 0
      → c.aes_cbc_decrypt key iv (c.aes_cbc_encrypt key iv text) ≡ text
  pub length-encrypt :
      (key iv text : Bytes)
      → length text % 16 ≡ 0
      → length (c.aes_cbc_encrypt key iv text) ≡ length text
  pub length-cmac : (key text : Bytes) → length (c.aes_cmac key text) ≡ 16

module _ (ciphers : Ciphers) (tlv : Tlv) where
  -- What the MAC is computed over, behind the chaining value.
  abbrev pub front : ℕ → Bytes → Bytes
  front tag text = tag ∷ (tlv.encode_len (length text + l_mac) ++ text)

  abbrev pub full_mac : BspInstance → Bytes → Bytes
  full_mac b covered = ciphers.aes_cmac b.m_algo.s_mac (b.m_algo.mac_chain ++ covered)

  pub auth_lem :
      (tag : ℕ) (text c : Bytes) (b b' : BspInstance)
      → auth ciphers tlv tag text b ≡ (ok c, b')
      → (ciphers.takes_key b.m_algo.s_mac ≡ true)
        × (c ≡ front tag text ++ take l_mac (full_mac b (front tag text)))
        × (b' ≡ set_mac_chain (full_mac b (front tag text)) b)
  unfolding auth
  auth_lem tag text c b b' h = elim (Bool-cases (ltb tag 256)) [
    | inl small ↦ elim (Bool-cases (ciphers.takes_key b.m_algo.s_mac)) [
      | inl taken ↦
          let len : Bytes = tlv.encode_len (length text + l_mac) in
          let mac : Bytes = take l_mac (full_mac b (front tag text)) in
          let e = rw (small, taken) at h in
          let sealed : tag ∷ (len ++ (text ++ mac)) ≡ c = cc in
          (taken, sym sealed ∙ ap (λ (x : Bytes). tag ∷ x) (sym (append_assoc len text mac)), cc)
      | inr refused ↦ absurd (cc (rw (small, refused) at h))
    ]
    | inr big ↦ absurd (cc (rw big at h))
  ]

  verify_lem :
      (covered mac : Bytes) (b : BspInstance)
      → ciphers.takes_key b.m_algo.s_mac ≡ true
      → length mac ≡ 8
      → mac ≡ take l_mac (full_mac b covered)
      → verify ciphers tlv (covered ++ mac) b ≡ (ok covered, set_mac_chain (full_mac b covered) b)
  unfolding verify
  verify_lem covered mac b taken eight is_mac =
      let cut : length (covered ++ mac) - l_mac ≡ length covered =
        omega (arith, length-append covered mac) in
      rw (cut, take-append covered mac (length covered) refl, taken)
        (rw (drop-append covered mac (length covered) refl, ← is_mac, beq_refl mac))

  -- The block counter and the MAC chain do not meet.
  get_icv_frame :
      (b s : BspInstance) (icv chain : Bytes)
      → get_icv ciphers tlv b ≡ (ok icv, s)
      → (s.m_algo ≡ b.m_algo)
        × (s.max_payload_size ≡ b.max_payload_size)
        × (get_icv ciphers tlv (set_mac_chain chain b) ≡ (ok icv, set_mac_chain chain s))
  unfolding get_icv
  get_icv_frame b s icv chain h = elim (Bool-cases (ltb b.c_algo.block_nr (2 ^ 128))) [
    | inl low ↦ elim (Bool-cases (ciphers.takes_key b.c_algo.s_enc)) [
      | inl taken ↦ let e = rw (low, taken) at h in (cc, cc, rw (low, taken) (cc))
      | inr refused ↦ absurd (cc (rw (low, refused) at h))
    ]
    | inr high ↦ absurd (cc (rw high at h))
  ]

  pub encrypt_frame :
      (text c : Bytes) (b s : BspInstance)
      → encrypt ciphers tlv text b ≡ (ok c, s)
      → (s.m_algo ≡ b.m_algo) × (s.max_payload_size ≡ b.max_payload_size)
  unfolding encrypt
  encrypt_frame text c b s h = bind_returned (get_icv ciphers tlv) _ b s h λ icv s' e k.
      let (m, p, f) = get_icv_frame b s' icv [] e in let after : s' ≡ s = cc in rw (← after) (m, p)

  pub decrypt_frame :
      (text c chain : Bytes) (b s : BspInstance)
      → decrypt ciphers tlv c b ≡ (ok text, s)
      → decrypt ciphers tlv c (set_mac_chain chain b) ≡ (ok text, set_mac_chain chain s)
  unfolding decrypt
  decrypt_frame text c chain b s h = bind_returned (get_icv ciphers tlv) _ b s h λ icv s' e k.
      let (m, p, f) = get_icv_frame b s' icv chain e in
      elim (Bool-cases (length c % blocksize == 0)) [
        | inl whole ↦
            let k' = rw whole at k in
            let after : s' ≡ s = cc in
            let r : unpad (ciphers.aes_cbc_decrypt s'.c_algo.s_enc icv c) ≡ ok text = cc in
            rw f (rw (whole, r, after))
        | inr broken ↦ absurd (cc (rw broken at k))
      ]

  module _ (laws : CipherLaws ciphers) where
    pub length-mac :
        (b : BspInstance) (covered : Bytes) → length (take l_mac (full_mac b covered)) ≡ 8
    length-mac b covered =
        rw length-take
          (omega (arith, laws.length-cmac b.m_algo.s_mac (b.m_algo.mac_chain ++ covered)))

    -- What `verify` returns is what `auth` was given, behind the tag and the length, where the
    -- receiver's MAC state is the sender's.
    pub verify-auth :
        (tag : ℕ) (text c : Bytes) (s s' b : BspInstance)
        → auth ciphers tlv tag text s ≡ (ok c, s')
        → s.m_algo ≡ b.m_algo
        → (verify ciphers tlv c b
            ≡ (ok (front tag text), set_mac_chain (full_mac s (front tag text)) b))
          × (s' ≡ set_mac_chain (full_mac s (front tag text)) s)
    verify-auth tag text c s s' b h same =
        let (taken, sealed, after) = auth_lem tag text c s s' h in
        let taken' : ciphers.takes_key b.m_algo.s_mac ≡ true = cc in
        let agree : full_mac b (front tag text) ≡ full_mac s (front tag text) = cc in
        (
          rw (sealed, ← agree)
              (verify_lem (front tag text) _ b taken' (length-mac b (front tag text)) refl),
          after,
        )

    pub length-encrypt_lem :
        (text c : Bytes) (b b' : BspInstance)
        → encrypt ciphers tlv text b ≡ (ok c, b')
        → length c ≡ 16 * (length text / 16) + 16
    unfolding encrypt
    length-encrypt_lem text c b b' h = bind_returned (get_icv ciphers tlv) _ b b' h λ icv s e k.
        let padded : length (pad_to_multiple text 16) ≡ 16 * (length text / 16) + 16 =
          length-pad_to_multiple text in
        let sealed : ciphers.aes_cbc_encrypt s.c_algo.s_enc icv (pad_to_multiple text 16) ≡ c =
          cc in
        rw (← sealed) (
          omega
            (arith, laws.length-encrypt s.c_algo.s_enc icv (pad_to_multiple text 16) (omega arith)))

    pub decrypt-encrypt_lem :
        (text c : Bytes) (b b' : BspInstance)
        → encrypt ciphers tlv text b ≡ (ok c, b')
        → decrypt ciphers tlv c b ≡ (ok text, b')
    unfolding encrypt decrypt
    decrypt-encrypt_lem text c b b' h = bind_returned (get_icv ciphers tlv) _ b b' h λ icv s e k.
        let padded : length (pad_to_multiple text 16) % 16 ≡ 0 =
          omega (arith, length-pad_to_multiple text) in
        let plain = laws.decrypt-encrypt s.c_algo.s_enc icv (pad_to_multiple text 16) padded in
        let sealed : ciphers.aes_cbc_encrypt s.c_algo.s_enc icv (pad_to_multiple text 16) ≡ c =
          cc in
        let size : length c % 16 ≡ 0 = omega (arith, length-encrypt_lem text c b b' h) in
        let whole : (length c % blocksize == 0) ≡ true = (==_iff (length c % 16) 0).1 size in
        let after : s ≡ b' = cc in
        rw e (rw (whole, ← sealed, plain, unpad-pad_to_multiple text, after))
