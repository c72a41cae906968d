-- ===== src/Session.antt =====
-- `RspSessionState` and `RspSessionStore` of pySim/esim/rsp.py, with the profile metadata that a
-- session holds (`ProfileMetadata` of pySim/esim/es8p.py). The store is the shelf: a value that is
-- read from it is a copy, and a change is kept only by writing the session back.
pub mod Pickle
pub mod Store
use zk_e_sim_smdp.Common.{ℕ, Bool, Option, none, some, List, [], ◌∷◌, ◌++◌}
use zk_e_sim_smdp.Common.Bytes.{Bytes}
use zk_e_sim_smdp.Common.Hex.{Text}
use zk_e_sim_smdp.X509.{Certificate}
use zk_e_sim_smdp.Merkle.{MerkleAccumulator}

-- An elliptic-curve private key: its number, and the name of its curve.
pub record PrivateKey : Type 0 where
  pub private_value : ℕ
  pub curve : ℕ

pub record ProfileMetadata : Type 0 where
  pub iccid_bin : Bytes
  pub spn : Text
  pub profile_name : Text
  pub profile_class : Text
  pub icon : Option Bytes
  pub icon_type : Option ℕ
  pub notifications : List (Text × Text)

-- `none` is Python's None, and for `pi_inc_bytes` and `matching_id` an attribute not yet set.
pub record RspSessionState : Type 0 where
  pub transaction_id : Text
  pub server_challenge : Bytes
  pub ci_cert_id : Bytes
  pub euicc_cert : Option Certificate
  pub eum_cert : Option Certificate
  pub eid : Option Text
  pub profile_metadata : Option ProfileMetadata
  pub smdp_signature2_do : Option Bytes
  pub euicc_otpk : Option Bytes
  pub smdp_ot : Option PrivateKey
  pub smdp_otpk : Option Bytes
  pub host_id : Option Bytes
  pub shared_secret : Option Bytes
  pub euicc_challenge : Option Bytes
  pub h_cert : Option Bytes
  pub l_spent : Option MerkleAccumulator
  pub root_spent : Option Bytes
  pub l_auth : Option MerkleAccumulator
  pub root_auth : Option Bytes
  pub pi_inc : Option (List Bytes)
  pub pi_inc_bytes : Option Bytes
  pub pid : Option Bytes
  pub h_pid : Option Bytes
  pub pk_mno : Option Bytes
  pub mnoid : Option Bytes
  pub auth_tok : Option Bytes
  pub expiry : Option Bytes
  pub sig_cred : Option Bytes
  pub sig_root : Option Bytes
  pub matching_id : Option Text

-- `RspSessionState(transactionId, serverChallenge, ci_cert_id)`
unfoldable pub new_session : Text → Bytes → Bytes → RspSessionState
new_session transaction_id server_challenge ci_cert_id = record {
  transaction_id = transaction_id;
  server_challenge = server_challenge;
  ci_cert_id = ci_cert_id;
  euicc_cert = none;
  eum_cert = none;
  eid = none;
  profile_metadata = none;
  smdp_signature2_do = none;
  euicc_otpk = none;
  smdp_ot = none;
  smdp_otpk = none;
  host_id = none;
  shared_secret = none;
  euicc_challenge = none;
  h_cert = none;
  l_spent = none;
  root_spent = none;
  l_auth = none;
  root_auth = none;
  pi_inc = none;
  pi_inc_bytes = none;
  pid = none;
  h_pid = none;
  pk_mno = none;
  mnoid = none;
  auth_tok = none;
  expiry = none;
  sig_cred = none;
  sig_root = none;
  matching_id = none;
}

-- `setHCert`
unfoldable pub set_h_cert : RspSessionState → Bytes → RspSessionState
set_h_cert ss h_cert = record ss { h_cert = some h_cert }

-- `ProfileMetadata(iccid_bin, spn, profile_name, profile_class)`
unfoldable pub new_metadata : Bytes → Text → Text → Text → ProfileMetadata
new_metadata iccid_bin spn profile_name profile_class = record {
  iccid_bin = iccid_bin;
  spn = spn;
  profile_name = profile_name;
  profile_class = profile_class;
  icon = none;
  icon_type = none;
  notifications = [];
}

unfoldable pub add_notification : Text → Text → ProfileMetadata → ProfileMetadata
add_notification event address m = record m {
  notifications = m.notifications ++ (event, address) ∷ [];
}
