-- ===== src/Smdpp/Runs.antt =====
-- The theorems about the handlers of osmo-smdpp.py at concrete inputs.
use zk_e_sim_smdp.Common.{◌⊎◌, Bool, true, false, none, some, [], ◌∷◌, ◌≡◌, refl, arith}
use zk_e_sim_smdp.Common.Outcome as O
use zk_e_sim_smdp.Common.Outcome.{Outcome, ok, err, key_error, api_error}
use zk_e_sim_smdp.Common.Action.{for_each}
use zk_e_sim_smdp.Common.Bytes.{Bytes, beq, from_bytes_be, digits_be, length-digits_be}
use zk_e_sim_smdp.Common.Hex.{Text, to_hex, from_hex, hex_digit}
use zk_e_sim_smdp.X509.{
  cert_get_auth_key_id, cert_get_subject_key_id, new_set, check_signed, add_intermediate_cert,
  insert, lookup, verify_cert_chain, chain_loop, chain_step,
}
use zk_e_sim_smdp.Tlv.Ber.{
  ber, ber_laws, put_tag, put_len, get_rawtag, get_rawtlv, get_len, get_tag, get_one,
}
use zk_e_sim_smdp.Extract.{
  extract_signed, extract_euicc_signed1, extract_euicc_signed2, message_of, extract_signed_lem,
}
use zk_e_sim_smdp.Tlv.{encode as encode_tlv}
use zk_e_sim_smdp.Bsp.{
  new_instance, encrypt_and_mac, mac_only, segments, from_kdf, bsp_key_derivation,
}
use zk_e_sim_smdp.Pmo.{name_of, new_pmo}
use zk_e_sim_smdp.Es8p.{
  from_upp, encode, metadata_of, gen_initialise_secure_channel, gen_init_sec_chan_signed_part,
  wrap_as_der_tlv, encode_profile, gen_replace_session_keys, encode_seq, class_operational,
  gen_store_metadata_request, store_metadata_request, notification_info, class_number, icon_of,
}
use zk_e_sim_smdp.Merkle.{
  init, add, verify_proof, verify_loop, compute_root, contains, values, climb, computed,
}
use zk_e_sim_smdp.Session.{RspSessionState, new_session, set_h_cert, new_metadata, add_notification}
use zk_e_sim_smdp.Session.Store
use zk_e_sim_smdp.Session.Store.{SessionStore, get-put, get-delete}
use zk_e_sim_smdp.Session.Pickle.{getstate, setstate, setstate-getstate}
use zk_e_sim_smdp.Smdpp.{Moment, common_authentication, field}
use zk_e_sim_smdp.Smdpp.Signature.{
  ecdsa_tr03111_to_dss, ecdsa_dss_to_tr03111, ecdsa_tr03111_to_dss-ecdsa_dss_to_tr03111,
}
use zk_e_sim_smdp.Smdpp.Certs.{ci_get_cert_for_pkid, select_ci_cert}
use zk_e_sim_smdp.Smdpp.Eligibility.{
  serialize_proof, deserialize_proof, chunks, decode_expiry, is_empty, setup_mno_values,
  take_eligibility, mno_verify, check_inclusion, spend_by, spend_token, credential, token_payload,
  check_bundle, verify_eligibility,
}
use zk_e_sim_smdp.Smdpp.Initiate.{
  pkid_list, check_verification_chain, check_initiate, open_session, initiate_authentication,
}
use zk_e_sim_smdp.Smdpp.Authenticate.{authenticate_client}
use zk_e_sim_smdp.Smdpp.Authenticate.Checks.{
  ClientRequest, AuthenticateResponse, first, join_path, has_prefix, parse_client, attach,
  ecdsa_verify, verify_chain, refuse_chain, check_chain, check_signature1, find_profile,
  check_context, answer, profile_metadata, zk_window, zk_verify, check_client,
}
use zk_e_sim_smdp.Smdpp.Finish.{
  session_verify, check_cancel, end_session, cancel_session, signed_end, end_found,
  finish_installation, handle_pending, handle_notification,
}
use zk_e_sim_smdp.Smdpp.Sessions.{Cancelled, cancel_session_accepted}
use zk_e_sim_smdp.Smdpp.Sessions.Notifications.{NotificationEffect, handle_notification_effect}
use zk_e_sim_smdp.Smdpp.Opening.{Opened, initiate_authentication_accepted}
use zk_e_sim_smdp.Smdpp.Opening.Writes.{
  Replaced, authenticate_client_frame, authenticate_client_refused,
}
use zk_e_sim_smdp.Smdpp.Verified.{Signed, authenticate_client-Signed}
use zk_e_sim_smdp.Smdpp.Verified.Issuers.{Issued, authenticate_client_chained}
use zk_e_sim_smdp.Smdpp.Verified.Bundle.{Entitled, authenticate_client_eligible}
use zk_e_sim_smdp.Smdpp.Download.{
  DownloadResponse, get_bound_profile_package, prepare_package, check_download, check_response,
  agree_keys, bind_profile, profile_keys,
}
use zk_e_sim_smdp.Smdpp.Bound.{Delivered, get_bound_profile_package-Delivered}
use zk_e_sim_smdp.Smdpp.Proofs.{deserialize_proof-serialize_proof}
use zk_e_sim_smdp.Smdpp.Tokens.{Counts, setup_mno_values_included, verify_eligibility_again}
use zk_e_sim_smdp.Smdpp.Toy.{
  cancel, eum_cert, cert, raw, elig, backend, server, moment, session, shelf, initiate,
  authenticate, download,
}

cancel_session_accepted_example : Cancelled backend (server false) cancel shelf [] (4 ∷ [])
cancel_session_accepted_example =
    cancel_session_accepted backend (server false) cancel shelf [] (4 ∷ []) (
      unfold cancel_session field Store.get beq end_session check_cancel session_verify ecdsa_verify
        ecdsa_tr03111_to_dss Store.delete digits_be from_bytes_be new_session in
      refl)

handle_notification_effect_example :
    NotificationEffect backend (server false) (("pendingNotification", []) ∷ []) shelf []
handle_notification_effect_example =
    handle_notification_effect backend (server false) (("pendingNotification", []) ∷ []) shelf []
      (ok tt)
      (unfold handle_notification field Store.get beq handle_pending finish_installation end_found
          signed_end session_verify ecdsa_verify ecdsa_tr03111_to_dss Store.delete digits_be
          from_bytes_be new_session in
        refl)

-- The server's answer, and the session that it has opened.
abbrev new_moment : Moment
new_moment = record {
  now = 10;
  uuid = 5 ∷ [];
  random = 6 ∷ [];
  one_time_key = record { private_value = 1; curve = 0 };
}

initiate_authentication_accepted_example :
    Opened backend
      (server false)
      new_moment
      initiate
      []
      (initiate_authentication backend (server false) new_moment initiate []).1
initiate_authentication_accepted_example =
    initiate_authentication_accepted backend (server false) new_moment initiate []
      (initiate_authentication backend (server false) new_moment initiate []).1
      (record {
        server_signed1 = [];
        server_signature1 = 0x5f ∷ 0x37 ∷ 0x40 ∷ 9 ∷ [];
        transaction_id = 5 ∷ [];
        euicc_ci_pkid_to_be_used = 0x04 ∷ 0x14 ∷ 1 ∷ [];
        server_certificate = 7 ∷ [];
        zk_auth_token_expiry = none;
      })
      (unfold initiate_authentication check_initiate field beq digits_be pkid_list
          check_verification_chain select_ci_cert ci_get_cert_for_pkid cert_get_subject_key_id
          Store.contains open_session in
        refl)

-- What the server answers to that request.
abbrev response : AuthenticateResponse
response = record {
  transaction_id = 4 ∷ [];
  profile_metadata = [];
  smdp_signed2 = 4 ∷ [];
  smdp_signature2 = 0x5f ∷ 0x37 ∷ 0x40 ∷ 9 ∷ [];
  smdp_certificate = 7 ∷ [];
}

plain_run :
    authenticate_client backend (server false) moment authenticate shelf
    ≡ (ok response, (authenticate_client backend (server false) moment authenticate shelf).1)
unfolding authenticate_client field parse_client extract_euicc_signed1 extract_signed get_rawtag
    get_rawtlv get_len get_tag get_one Store.get beq attach set_h_cert Store.put check_client
    check_chain cert_get_auth_key_id verify_chain ci_get_cert_for_pkid new_set check_signed
    add_intermediate_cert insert verify_cert_chain chain_loop chain_step lookup refuse_chain
    check_signature1 ecdsa_verify ecdsa_tr03111_to_dss digits_be from_bytes_be zk_window first
    check_context find_profile join_path has_prefix zk_verify answer gen_store_metadata_request
    store_metadata_request class_number notification_info new_pmo name_of icon_of new_metadata
    add_notification profile_metadata new_session
plain_run = refl

zk_run :
    authenticate_client backend (server true) moment authenticate shelf
    ≡ (ok response, (authenticate_client backend (server true) moment authenticate shelf).1)
unfolding authenticate_client field parse_client extract_euicc_signed1 extract_signed get_rawtag
    get_rawtlv get_len get_tag get_one Store.get beq attach set_h_cert Store.put check_client
    check_chain check_signature1 ecdsa_verify ecdsa_tr03111_to_dss digits_be from_bytes_be zk_window
    take_eligibility is_empty decode_expiry deserialize_proof chunks first check_context
    find_profile join_path has_prefix zk_verify verify_eligibility check_bundle mno_verify
    credential token_payload check_inclusion verify_proof verify_loop to_hex from_hex hex_digit
    spend_token spend_by add contains answer gen_store_metadata_request store_metadata_request
    class_number notification_info new_pmo name_of icon_of new_metadata add_notification
    profile_metadata new_session
zk_run = refl

authenticate_client-Signed_example : Signed backend (server true) authenticate shelf
authenticate_client-Signed_example =
    authenticate_client-Signed backend (server true) moment authenticate shelf
      (authenticate_client backend (server true) moment authenticate shelf).1 response zk_run

authenticate_client_chained_example : Issued backend (server false) authenticate shelf
authenticate_client_chained_example =
    authenticate_client_chained backend (server false) moment authenticate shelf
      (authenticate_client backend (server false) moment authenticate shelf).1 response refl
      plain_run

authenticate_client_eligible_example : Entitled backend (server true) moment authenticate shelf
authenticate_client_eligible_example =
    authenticate_client_eligible backend (server true) moment authenticate shelf
      (authenticate_client backend (server true) moment authenticate shelf).1 response refl zk_run

abbrev request : ClientRequest
request = record {
  transaction_id = 4 ∷ [];
  signed1 = record {
    server_challenge = 6 ∷ [];
    ctx_params1 = common_authentication (some (77 ∷ []));
    eligibility_data = some elig;
  };
  signed1_bin = 48 ∷ 0 ∷ [];
  signature1 = raw;
  euicc_certificate_bin = 3 ∷ [];
  euicc_cert = cert;
  eum_cert = eum_cert;
}

parsed : (zk_mode : Bool) → parse_client backend (server zk_mode) authenticate ≡ ok request
unfolding parse_client field extract_euicc_signed1 extract_signed get_rawtag get_rawtlv get_len
    get_tag get_one
parsed zk_mode = refl

authenticate_client_frame_example :
    (shelf ≡ (authenticate_client backend (server true) moment authenticate shelf).1)
    ⊎ ((r : ClientRequest) × (parse_client backend (server true) authenticate ≡ ok r)
        × ((other : Text)
            → beq r.transaction_id other ≡ false
            → Store.get other
                (authenticate_client backend (server true) moment authenticate shelf).1
              ≡ Store.get other shelf))
authenticate_client_frame_example =
    authenticate_client_frame backend (server true) moment authenticate shelf
      (authenticate_client backend (server true) moment authenticate shelf).1 (ok response) zk_run

-- A session that was opened with another challenge.
abbrev stale : RspSessionState
stale = record session { server_challenge = 0 ∷ [] }

abbrev stale_shelf : SessionStore
stale_shelf = (4 ∷ [], stale) ∷ []

abbrev refused_shelf : SessionStore
refused_shelf = (authenticate_client backend (server false) moment authenticate stale_shelf).1

authenticate_client_refused_example :
    (stale_shelf ≡ refused_shelf)
    ⊎ ((r : ClientRequest) × (ss : RspSessionState) × (ss' : RspSessionState) × (parse_client
            backend
            (server false)
            authenticate
          ≡ ok r)
        × (Store.get r.transaction_id stale_shelf ≡ some ss)
        × (check_client backend (server false) moment r (attach backend (server false) r ss)
            ≡ err (api_error "8.1" "6.1"))
        × (Store.get r.transaction_id refused_shelf ≡ some ss')
        × Replaced backend (server false) r ss ss')
authenticate_client_refused_example =
    authenticate_client_refused backend (server false) moment authenticate stale_shelf refused_shelf
      (api_error "8.1" "6.1")
      (unfold authenticate_client parse_client extract_euicc_signed1 extract_signed get_rawtag
          get_rawtlv get_len get_tag get_one field Store.get attach set_h_cert check_client
          check_chain cert_get_auth_key_id verify_chain ci_get_cert_for_pkid new_set check_signed
          add_intermediate_cert insert verify_cert_chain chain_loop chain_step lookup refuse_chain
          check_signature1 ecdsa_verify ecdsa_tr03111_to_dss digits_be from_bytes_be zk_window first
          beq new_session in
        refl)

abbrev entitled : RspSessionState
entitled = record session {
  h_pid = some (1 ∷ []);
  sig_cred = some raw;
  auth_tok = some (2 ∷ []);
  root_auth = some (1 ∷ []);
  sig_root = some raw;
  pi_inc = some [];
}

-- A session with a raw signature as its token.
abbrev with_token : RspSessionState
with_token = record entitled { auth_tok = some raw }

abbrev spent : RspSessionState
spent = record with_token {
  l_spent = some (record { leaves = (to_hex raw, raw) ∷ []; root = computed (some raw) });
}

accepted : verify_eligibility backend [] with_token ≡ ok spent
unfolding verify_eligibility check_bundle mno_verify credential token_payload check_inclusion
    is_empty verify_proof verify_loop to_hex from_hex hex_digit spend_token spend_by add contains
    compute_root values climb ecdsa_tr03111_to_dss digits_be from_bytes_be beq new_session
accepted = refl

verify_eligibility_again_example :
    Counts backend spent.l_spent raw
    × (spent.auth_tok ≡ some raw)
    × (verify_eligibility backend [] spent ≡ ok spent)
verify_eligibility_again_example =
    verify_eligibility_again backend [] with_token spent init raw refl refl
      (unfold is_empty digits_be in refl) accepted

setup_mno_values_included_example :
    O.◌>>=◌ (setup_mno_values backend session) (check_inclusion backend) ≡ ok tt
setup_mno_values_included_example =
    setup_mno_values_included backend session (omega arith, tt) (unfold is_empty in refl)

deserialize_proof-serialize_proof_example :
    deserialize_proof (serialize_proof (digits_be 32 1 [] ∷ digits_be 32 2 [] ∷ []))
    ≡ digits_be 32 1 [] ∷ digits_be 32 2 [] ∷ []
deserialize_proof-serialize_proof_example =
    deserialize_proof-serialize_proof (digits_be 32 1 [] ∷ digits_be 32 2 [] ∷ [])
      (length-digits_be 32 1 [], (length-digits_be 32 2 [], tt))

ecdsa_tr03111_to_dss-ecdsa_dss_to_tr03111_example :
    O.◌>>=◌ (ecdsa_dss_to_tr03111 5 7) (ecdsa_tr03111_to_dss (λ r s. r ∷ s ∷ [])) ≡ ok (5 ∷ 7 ∷ [])
ecdsa_tr03111_to_dss-ecdsa_dss_to_tr03111_example =
    ecdsa_tr03111_to_dss-ecdsa_dss_to_tr03111 (λ r s. r ∷ s ∷ []) 5 7 (omega arith) (omega arith)

setstate-getstate_example :
    setstate
      (λ b. b)
      (λ b. some b)
      (λ _. some cert)
      (getstate (λ b. b) (λ b. some b) (λ _. some cert) session)
    ≡ ok session
unfolding new_session
setstate-getstate_example =
    setstate-getstate (λ b. b) (λ b. some b) (λ _. some cert) session refl tt refl tt

-- The session behind an accepted `authenticateClient`.
abbrev bound_shelf : SessionStore
bound_shelf =
    (
      4 ∷ [],
      record session {
        smdp_signature2_do = some (9 ∷ []);
        eid = some [];
        matching_id = some (77 ∷ []);
        profile_metadata = some (new_metadata [] [] [] class_operational);
      },
    )
    ∷ []

abbrev package_of : Outcome DownloadResponse → Bytes
package_of (ok r) = r.bound_profile_package
package_of (err e) = []

get_bound_profile_package-Delivered_example :
    Delivered backend
      (server false)
      download
      bound_shelf
      (get_bound_profile_package backend (server false) moment download bound_shelf).1
get_bound_profile_package-Delivered_example =
    get_bound_profile_package-Delivered backend (server false) moment download bound_shelf
      (get_bound_profile_package backend (server false) moment download bound_shelf).1
      (record {
        transaction_id = 4 ∷ [];
        bound_profile_package =
            package_of
              (get_bound_profile_package backend (server false) moment download bound_shelf).0;
      })
      (unfold get_bound_profile_package field Store.get beq prepare_package check_download
          check_response extract_euicc_signed2 extract_signed get_rawtag get_rawtlv get_len get_tag
          get_one session_verify ecdsa_verify ecdsa_tr03111_to_dss digits_be from_bytes_be
          agree_keys bind_profile join_path profile_keys new_instance from_upp encrypt_and_mac
          segments for_each encode from_kdf bsp_key_derivation put_len put_tag metadata_of
          gen_initialise_secure_channel gen_init_sec_chan_signed_part wrap_as_der_tlv
          gen_store_metadata_request store_metadata_request class_number notification_info icon_of
          new_metadata encode_profile gen_replace_session_keys encode_seq mac_only new_session in
        refl)

extract_signed_lem_example :
    (extract_euicc_signed1 ber (message_of ber 0xbf38 (7 ∷ []) [] [])
      ≡ ok (encode_tlv ber 0x30 (7 ∷ [])))
    × (extract_euicc_signed2 ber (message_of ber 0xbf21 (7 ∷ []) [] [])
        ≡ ok (encode_tlv ber 0x30 (7 ∷ [])))
extract_signed_lem_example =
    extract_signed_lem ber ber_laws (7 ∷ []) [] [] (unfold put_tag put_len in omega arith)
      (unfold put_tag put_len in omega arith) (omega arith)
