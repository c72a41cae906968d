-- ===== src/Bsp/Runs.antt =====
-- The protection protocol with toy ciphers (encryption that changes nothing, a MAC that keeps the
-- first sixteen bytes) and the BER codec, and its theorems at concrete inputs.
use zk_e_sim_smdp.Common.{
  ℕ, ◌==◌, ◌||◌, ◌≤◌, ◌<◌, ◌≡◌, refl, ◌↔◌, List, [], ◌∷◌, ◌++◌, length, length-take, length-append,
  length-replicate, take, replicate, arith,
}
use zk_e_sim_smdp.Common.Outcome.{ok, err, value_error, assertion_error}
use zk_e_sim_smdp.Common.Action.{for_each}
use zk_e_sim_smdp.Common.Bytes.{Bytes, beq}
use zk_e_sim_smdp.Tlv.Ber.{ber, ber_laws, put_len}
use zk_e_sim_smdp.Bsp.{
  Ciphers, BspInstance, max_segment_size, pad_to_multiple, get_padding, segments, get_icv, encrypt,
  auth, verify, encrypt_and_mac_one, encrypt_and_mac, mac_only_one, mac_only, demac_and_decrypt,
  demac_only,
}
use zk_e_sim_smdp.Bsp.Frame.{CipherLaws}
use zk_e_sim_smdp.Bsp.Sync.{demac-mac}
use zk_e_sim_smdp.Bsp.Total.{demac-encrypt_total}
use zk_e_sim_smdp.Bsp.Sizes.{encrypt_and_mac_one_size}

abbrev pub toy : Ciphers
toy = record {
  takes_key = λ key. length key == 16 || length key == 24 || length key == 32;
  aes_cbc_encrypt = λ key iv text. text;
  aes_cbc_decrypt = λ key iv text. text;
  aes_cmac = λ key text. take 16 (text ++ replicate 16 7);
  x963_kdf = λ secret len info. take len (secret ++ replicate len 5);
}

pub toy_laws : CipherLaws toy
toy_laws = record {
  decrypt-encrypt = λ key iv text h. refl;
  length-encrypt = λ key iv text h. refl;
  length-cmac = λ key text. omega (
    arith,
    length-take 16 (text ++ replicate 16 7),
    length-append text (replicate 16 7),
    length-replicate {A = ℕ} 16 7,
  );
}

-- An instance with room for four bytes in a segment.
abbrev small : BspInstance
small = record {
  c_algo = record { s_enc = replicate 16 1; block_nr = 1 };
  m_algo = record { s_mac = replicate 16 2; mac_chain = 9 ∷ [] };
  max_payload_size = 4;
}

abbrev wide : BspInstance
wide = record small { max_payload_size = 1008 }

abbrev text : Bytes
text = 1 ∷ 2 ∷ 3 ∷ 4 ∷ 5 ∷ []

cut : segments 5 4 text ≡ (1 ∷ 2 ∷ 3 ∷ 4 ∷ []) ∷ (5 ∷ []) ∷ []
unfolding segments
cut = refl

padded : pad_to_multiple (1 ∷ []) 4 ≡ 1 ∷ 0x80 ∷ 0 ∷ 0 ∷ []
unfolding pad_to_multiple get_padding
padded = refl

short_input : (verify toy ber (1 ∷ 2 ∷ []) small).0 ≡ err value_error
unfolding verify beq
short_input = refl

too_long : (encrypt_and_mac_one toy ber 0x86 text small).0 ≡ err assertion_error
unfolding encrypt_and_mac_one
too_long = refl

demac-encrypt_total_example :
    (cs : List Bytes) × (b' : BspInstance) × (encrypt_and_mac toy ber 0x86 text small ≡ (ok cs, b'))
    × (demac_and_decrypt toy ber cs small ≡ (ok text, b'))
demac-encrypt_total_example =
    demac-encrypt_total toy ber toy_laws ber_laws 0x86 text small (omega arith) (refl, refl)
      (omega arith) (omega arith) (omega arith)

-- Two segments with a MAC each.
abbrev maced : List Bytes
maced =
    (0x88 ∷ 12 ∷ 1 ∷ 2 ∷ 3 ∷ 4 ∷ 9 ∷ 0x88 ∷ 12 ∷ 1 ∷ 2 ∷ 3 ∷ 4 ∷ 7 ∷ [])
    ∷ (0x88 ∷ 9 ∷ 5 ∷ 9 ∷ 0x88 ∷ 12 ∷ 1 ∷ 2 ∷ 3 ∷ 4 ∷ 7 ∷ [])
    ∷ []

abbrev after_mac : BspInstance
after_mac = record {
  c_algo = record { s_enc = replicate 16 1; block_nr = 3 };
  m_algo = record {
    s_mac = replicate 16 2;
    mac_chain = 9 ∷ 0x88 ∷ 12 ∷ 1 ∷ 2 ∷ 3 ∷ 4 ∷ replicate 9 7;
  };
  max_payload_size = 4;
}

mac_run : mac_only toy ber 0x88 text small ≡ (ok maced, after_mac)
unfolding mac_only mac_only_one auth segments for_each put_len
mac_run = refl

demac-mac_example : demac_only toy ber maced small ≡ (ok text, after_mac)
demac-mac_example =
    demac-mac toy ber toy_laws ber_laws 0x88 text maced small after_mac (omega arith) (omega arith)
      (omega arith) mac_run

abbrev one_maced : Bytes
one_maced = 0x88 ∷ 9 ∷ 1 ∷ 9 ∷ 0x88 ∷ 9 ∷ 1 ∷ 7 ∷ 7 ∷ 7 ∷ 7 ∷ []

abbrev state : Bytes → BspInstance
state chain = record wide {
  c_algo = record { s_enc = replicate 16 1; block_nr = 2 };
  m_algo = record { s_mac = replicate 16 2; mac_chain = chain };
}

one_run :
    mac_only_one toy ber 0x88 (1 ∷ []) wide
    ≡ (ok one_maced, state (9 ∷ 0x88 ∷ 9 ∷ 1 ∷ replicate 12 7))
unfolding mac_only_one auth put_len
one_run = refl

abbrev one_sealed : Bytes
one_sealed = 0x86 ∷ 24 ∷ 1 ∷ 0x80 ∷ (replicate 14 0 ++ (9 ∷ 0x86 ∷ 24 ∷ 1 ∷ 0x80 ∷ 0 ∷ 0 ∷ 0 ∷ []))

sealed_run :
    encrypt_and_mac_one toy ber 0x86 (1 ∷ []) wide
    ≡ (ok one_sealed, state (9 ∷ 0x86 ∷ 24 ∷ 1 ∷ 0x80 ∷ replicate 11 0))
unfolding encrypt_and_mac_one encrypt get_icv auth pad_to_multiple get_padding put_len
sealed_run = refl

encrypt_and_mac_one_size_example :
    (length one_sealed ≤ max_segment_size) ↔ (length {A = ℕ} (1 ∷ []) < 1008)
encrypt_and_mac_one_size_example =
    encrypt_and_mac_one_size toy ber toy_laws ber_laws 0x86 (1 ∷ []) one_sealed wide
      (state (9 ∷ 0x86 ∷ 24 ∷ 1 ∷ 0x80 ∷ replicate 11 0)) refl sealed_run
