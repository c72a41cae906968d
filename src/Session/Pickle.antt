-- ===== src/Session/Pickle.antt =====
-- `__getstate__` and `__setstate__`: what a session is on the shelf. Certificates and keys become
-- bytes and numbers; every other attribute is kept as it is.
use zk_e_sim_smdp.Common.{ℕ, zero, suc, Option, none, some, ◌≡◌, refl, ◌<◌, arith}
use zk_e_sim_smdp.Common.Outcome.{Outcome, ok, value_error, expect, ◌>>=◌}
use zk_e_sim_smdp.Common.Bytes.{Bytes}
use zk_e_sim_smdp.X509.{Certificate}
use zk_e_sim_smdp.Session.{PrivateKey, RspSessionState}

-- The attributes that `__getstate__` adds, and the session for those that it copies. An entry is
-- `none` where the key is not in the dictionary.
pub record PickledState : Type 0 where
  pub attributes : RspSessionState
  pub euicc_cert : Option Bytes
  pub eum_cert : Option Bytes
  pub smdp_otsk : Option ℕ
  pub smdp_ot_curve : Option ℕ
  pub pk_mno : Option Bytes

abbrev private_value : Option PrivateKey → Option ℕ
private_value none = none
private_value (some k) = some k.private_value

abbrev curve : Option PrivateKey → Option ℕ
curve none = none
curve (some k) = some k.curve

abbrev der : Option Certificate → Option Bytes
der none = none
der (some c) = some c.der

-- the attributes that are deleted from the copy
abbrev strip : RspSessionState → RspSessionState
strip ss = record ss { euicc_cert = none; eum_cert = none; smdp_ot = none; pk_mno = none }

module _ (public_bytes : Bytes → Bytes) (load_public_key : Bytes → Option Bytes)
    (load_certificate : Bytes → Option Certificate) where
  public_key_der : Option Bytes → Option Bytes
  public_key_der none = none
  public_key_der (some k) = some (public_bytes k)

  unfoldable pub getstate : RspSessionState → PickledState
  unfolding public_key_der
  getstate ss = record {
    attributes = strip ss;
    euicc_cert = der ss.euicc_cert;
    eum_cert = der ss.eum_cert;
    smdp_otsk = private_value ss.smdp_ot;
    smdp_ot_curve = curve ss.smdp_ot;
    pk_mno = public_key_der ss.pk_mno;
  }

  restore {ℓ} : {A : Type ℓ} → (Bytes → Option A) → Option Bytes → Outcome (Option A)
  restore load none = ok none
  restore load (some b) = expect (load b) value_error >>= λ a. ok (some a)

  -- `state.get('_smdp_otsk', None)`: a key whose number is 0 counts as missing
  restore_key : Option ℕ → Option ℕ → Option PrivateKey
  restore_key (some (suc n)) (some c) = some (record { private_value = suc n; curve = c })
  restore_key _ _ = none

  unfoldable pub setstate : PickledState → Outcome RspSessionState
  unfolding restore restore_key
  setstate state = do
    euicc_cert ← restore load_certificate state.euicc_cert
    eum_cert ← restore load_certificate state.eum_cert
    pk_mno ← restore load_public_key state.pk_mno
    let smdp_ot = restore_key state.smdp_otsk state.smdp_ot_curve
    ok (record state.attributes {
      euicc_cert = euicc_cert;
      eum_cert = eum_cert;
      smdp_ot = smdp_ot;
      pk_mno = pk_mno;
    })

  -- A certificate that was loaded from its own DER form.
  abbrev pub IsLoaded : Option Certificate → Type 0
  IsLoaded none = Unit
  IsLoaded (some c) = load_certificate c.der ≡ some c

  abbrev pub IsLoadedKey : Option Bytes → Type 0
  IsLoadedKey none = Unit
  IsLoadedKey (some k) = load_public_key (public_bytes k) ≡ some k

  abbrev pub IsValidKey : Option PrivateKey → Type 0
  IsValidKey none = Unit
  IsValidKey (some k) = 0 < k.private_value

  restore_cert : (c : Option Certificate) → IsLoaded c → restore load_certificate (der c) ≡ ok c
  unfolding restore
  restore_cert none h = refl
  restore_cert (some c) h = rw h

  restore_public_key :
      (k : Option Bytes) → IsLoadedKey k → restore load_public_key (public_key_der k) ≡ ok k
  unfolding restore public_key_der
  restore_public_key none h = refl
  restore_public_key (some k) h = rw h

  restore_private_key :
      (k : Option PrivateKey) → IsValidKey k → restore_key (private_value k) (curve k) ≡ k
  unfolding restore_key
  restore_private_key none h = refl
  restore_private_key (some k) h = key_again k.private_value k.curve h
    where
      key_again :
          (n c : ℕ)
          → 0 < n
          → restore_key (some n) (some c) ≡ some (record { private_value = n; curve = c })
      key_again zero c h = absurd (omega arith)
      key_again (suc n) c h = refl

  -- A session comes back from the shelf as it was, where its certificates and its MNO key load from
  -- their own DER forms and its one-time private key is not 0.
  pub setstate-getstate :
      (ss : RspSessionState)
      → IsLoaded ss.euicc_cert
      → IsLoaded ss.eum_cert
      → IsLoadedKey ss.pk_mno
      → IsValidKey ss.smdp_ot
      → setstate (getstate ss) ≡ ok ss
  setstate-getstate ss a b c d =
      unfold setstate getstate in
      rw (restore_cert ss.euicc_cert a, restore_cert ss.eum_cert b, restore_public_key ss.pk_mno c)
        (rw (restore_private_key ss.smdp_ot d))
