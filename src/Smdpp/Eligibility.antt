-- ===== src/Smdpp/Eligibility.antt =====
-- The ZK extension of osmo-smdpp.py: the values of the operator that a new session gets, the form of
-- inclusion proofs, and the checks of a request's eligibility data.
use zk_e_sim_smdp.Common.{
  ℕ, zero, suc, ◌+◌, ◌-◌, ◌*◌, ◌%◌, String, Bool, true, false, not, ◌&&◌, Option, none, some, List,
  [], ◌∷◌, ◌++◌, length, take, drop, join, ltb, leb, ◌==◌, if◌then◌else◌,
}
use zk_e_sim_smdp.Common.Outcome.{
  Outcome, ok, err, type_error, api_error, expect, guard, ◌>>=◌, ◌>>◌,
}
use zk_e_sim_smdp.Common.Bytes.{Bytes}
use zk_e_sim_smdp.Common.Hex.{to_hex}
use zk_e_sim_smdp.Merkle.{
  MerkleAccumulator, RootState, unset, computed, init, add, generate_proof, verify_proof,
}
use zk_e_sim_smdp.Session.{RspSessionState}
use zk_e_sim_smdp.Smdpp.{Backend, EligibilityData}
use zk_e_sim_smdp.Smdpp.Signature.{ecdsa_tr03111_to_dss}

-- b"89049032000000000000012345678901"
abbrev pub fixed_test_eid : Bytes
fixed_test_eid =
    56 ∷ 57 ∷ 48 ∷ 52 ∷ 57 ∷ 48 ∷ 51 ∷ 50 ∷ 48 ∷ 48 ∷ 48 ∷ 48 ∷ 48 ∷ 48 ∷ 48 ∷ 48 ∷ 48 ∷ 48 ∷ 48
    ∷ 48 ∷ 48 ∷ 49 ∷ 50 ∷ 51 ∷ 52 ∷ 53 ∷ 54 ∷ 55 ∷ 56 ∷ 57 ∷ 48 ∷ 49 ∷ []

-- b"4102444800"
abbrev pub fixed_expiry : Bytes
fixed_expiry = 52 ∷ 49 ∷ 48 ∷ 50 ∷ 52 ∷ 52 ∷ 52 ∷ 56 ∷ 48 ∷ 48 ∷ []

-- b"MNO_id"
abbrev pub fixed_mnoid : Bytes
fixed_mnoid = 77 ∷ 78 ∷ 79 ∷ 95 ∷ 105 ∷ 100 ∷ []

abbrev pub fixed_mno_private_scalar : ℕ
fixed_mno_private_scalar = 0x1f1e1d1c1b1a19181716151413121110ffeeddccbbaa99887766554433221100

unfoldable pub serialize_proof : List Bytes → Bytes
serialize_proof proof = join proof

-- `[blob[i:i+32] for i in range(0, len(blob), 32)]`, on fuel
unfoldable pub chunks : ℕ → Bytes → List Bytes
chunks fuel [] = []
chunks zero (b ∷ bs) = []
chunks (suc fuel) (b ∷ bs) = take 32 (b ∷ bs) ∷ chunks fuel (drop 32 (b ∷ bs))

unfoldable pub deserialize_proof : Bytes → List Bytes
deserialize_proof blob = if length blob % 32 == 0 then chunks (length blob) blob else []

-- The number that a string of decimal digits spells. The only expiry that the code stores in a
-- session is such a string.
read_digits : ℕ → Bytes → Option ℕ
read_digits acc [] = some acc
read_digits acc (c ∷ cs) =
    let more = read_digits (acc * 10 + (c - 48)) cs in if leb 48 c && leb c 57 then more else none

-- `decode_expiry`, in seconds; `none` is the exception of `int`
unfoldable pub decode_expiry : Bytes → Option ℕ
unfolding read_digits
decode_expiry [] = none
decode_expiry (c ∷ cs) = read_digits 0 (c ∷ cs)

-- `bytes(acc.get_root())`
unfoldable pub root_bytes : RootState → Outcome Bytes
root_bytes unset = ok []
root_bytes (computed none) = err type_error
root_bytes (computed (some root)) = ok root

-- `bytes(root) if root else b''`
unfoldable pub root_or_empty : RootState → Bytes
root_or_empty (computed (some root)) = root
root_or_empty _ = []

unfoldable pub is_empty : Bytes → Bool
is_empty [] = true
is_empty (b ∷ bs) = false

module _ (backend : Backend) where
  open backend use {sha256, key_verifies, encode_dss, mno_public_key}

  unfoldable pub setup_mno_values : RspSessionState → Outcome RspSessionState
  setup_mno_values ss = do
    let pid = sha256 fixed_test_eid
    let h_pid = sha256 pid
    l_auth ← add sha256 init (to_hex h_pid)
    root_auth ← root_bytes l_auth.root
    pi_inc ← expect (generate_proof sha256 l_auth (to_hex h_pid)) type_error
    ok (record ss {
      pid = some pid;
      mnoid = some fixed_mnoid;
      h_pid = some h_pid;
      pk_mno = some (mno_public_key fixed_mno_private_scalar);
      l_auth = some l_auth;
      root_auth = some root_auth;
      l_spent = some init;
      root_spent = some (root_or_empty init.root);
      pi_inc = some pi_inc;
      pi_inc_bytes = some (serialize_proof pi_inc);
      expiry = some fixed_expiry;
      sig_cred = none;
      sig_root = none;
      auth_tok = none;
    })

  -- The window of the token and the eligibility data, which the session takes over.
  unfoldable pub take_eligibility :
      ℕ → Option EligibilityData → RspSessionState → Outcome RspSessionState
  take_eligibility now eligibility ss = do
    elig ← expect eligibility (api_error "8.1" "6.1")
    expiry ← expect ss.expiry (api_error "0.1" "2.2")
    guard (not (is_empty expiry)) (api_error "0.1" "2.2")
    expiry_dt ← expect (decode_expiry expiry) (api_error "0.1" "2.2")
    guard (not (ltb expiry_dt now)) (api_error "0.1" "1.4")
    ok (record ss {
      h_pid = some elig.hpid;
      sig_cred = some elig.sig_cred;
      auth_tok = some elig.auth_token;
      root_auth = some elig.acc_root;
      sig_root = some elig.sig_root;
      pi_inc_bytes = some elig.acc_proof;
      pi_inc = some (deserialize_proof elig.acc_proof);
    })

  -- One `pk_mno.verify` of a raw signature; an invalid one is the given API error.
  unfoldable pub mno_verify :
      Bytes → Option Bytes → Outcome Bytes → String → String → Outcome (Unit {0})
  mno_verify pk sig payload subject reason = do
    raw ← expect sig type_error
    dss ← ecdsa_tr03111_to_dss encode_dss raw
    text ← payload
    guard (key_verifies pk dss text) (api_error subject reason)

  -- The proof that the pseudonym is in the operator's accumulator.
  unfoldable pub check_inclusion : RspSessionState → Outcome (Unit {0})
  check_inclusion ss = do
    l_auth ← expect ss.l_auth (api_error "0.1" "2.3")
    h_pid ← expect ss.h_pid (api_error "0.1" "1.3")
    guard (not (is_empty h_pid)) (api_error "0.1" "1.3")
    root_auth ← expect ss.root_auth (api_error "0.1" "1.3")
    guard (not (is_empty root_auth)) (api_error "0.1" "1.3")
    pi_inc ← expect ss.pi_inc type_error
    included ← verify_proof sha256 (to_hex h_pid) pi_inc root_auth
    guard included (api_error "0.1" "1.3")

  -- `if ss.L_spent is not None and ss.auth_tok: ss.L_spent.add(ss.auth_tok.hex())`
  unfoldable pub spend_by :
      RspSessionState → Option MerkleAccumulator → Option Bytes → Outcome RspSessionState
  spend_by ss none auth_tok = ok ss
  spend_by ss (some l_spent) none = ok ss
  spend_by ss (some l_spent) (some auth_tok) =
      if is_empty auth_tok
      then ok ss
      else (add sha256 l_spent (to_hex auth_tok) >>= λ acc. ok (record ss { l_spent = some acc }))

  -- The token is added to the spent tokens of this session.
  unfoldable pub spend_token : RspSessionState → Outcome RspSessionState
  spend_token ss = spend_by ss ss.l_spent ss.auth_tok

  -- `ss.h_pid + h_cert + ss.mnoid`
  unfoldable pub credential : RspSessionState → Bytes → Outcome Bytes
  credential ss h_cert = do
    h_pid ← expect ss.h_pid type_error
    mnoid ← expect ss.mnoid type_error
    ok (h_pid ++ (h_cert ++ mnoid))

  -- `ss.h_pid + h_cert + ss.mnoid + ss.expiry`
  unfoldable pub token_payload : RspSessionState → Bytes → Outcome Bytes
  unfolding credential
  token_payload ss h_cert = do
    front ← credential ss h_cert
    expiry ← expect ss.expiry type_error
    ok (front ++ expiry)

  -- The three signatures of the operator, and the inclusion proof.
  unfoldable pub check_bundle : Bytes → RspSessionState → Outcome (Unit {0})
  check_bundle h_cert ss = do
    pk_mno ← expect ss.pk_mno (api_error "0.1" "2.2")
    mno_verify pk_mno ss.sig_cred (credential ss h_cert) "0.1" "1.2"
    mno_verify pk_mno ss.sig_root (expect ss.root_auth type_error) "0.1" "1.3"
    mno_verify pk_mno ss.auth_tok (token_payload ss h_cert) "0.1" "1.2"
    check_inclusion ss

  unfoldable pub verify_eligibility : Bytes → RspSessionState → Outcome RspSessionState
  verify_eligibility h_cert ss = check_bundle h_cert ss >> spend_token ss
