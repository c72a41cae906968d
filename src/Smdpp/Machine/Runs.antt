-- ===== src/Smdpp/Machine/Runs.antt =====
-- The theorems about histories of requests at concrete inputs.
use zk_e_sim_smdp.Common.{some, [], ◌∷◌, refl, false}
use zk_e_sim_smdp.Common.Action.{for_each}
use zk_e_sim_smdp.Common.Bytes.{beq, from_bytes_be, digits_be}
use zk_e_sim_smdp.X509.{
  cert_get_auth_key_id, cert_get_subject_key_id, new_set, check_signed, add_intermediate_cert,
  insert, lookup, verify_cert_chain, chain_loop, chain_step,
}
use zk_e_sim_smdp.Tlv.Ber.{put_tag, put_len, get_rawtag, get_rawtlv, get_len, get_tag, get_one}
use zk_e_sim_smdp.Extract.{extract_signed, extract_euicc_signed1, extract_euicc_signed2}
use zk_e_sim_smdp.Bsp.{
  new_instance, encrypt_and_mac, mac_only, segments, from_kdf, bsp_key_derivation,
}
use zk_e_sim_smdp.Pmo.{to_bitstring, name_of, new_pmo}
use zk_e_sim_smdp.Es8p.{
  from_upp, encode, metadata_of, gen_initialise_secure_channel, gen_init_sec_chan_signed_part,
  wrap_as_der_tlv, encode_profile, gen_replace_session_keys, encode_seq, gen_store_metadata_request,
  store_metadata_request, notification_info, class_number, icon_of,
}
use zk_e_sim_smdp.Session.{RspSessionState, new_session, set_h_cert, new_metadata, add_notification}
use zk_e_sim_smdp.Session.Store
use zk_e_sim_smdp.Session.Store.{SessionStore}
use zk_e_sim_smdp.Smdpp.{field}
use zk_e_sim_smdp.Smdpp.Signature.{ecdsa_tr03111_to_dss}
use zk_e_sim_smdp.Smdpp.Certs.{ci_get_cert_for_pkid, select_ci_cert}
use zk_e_sim_smdp.Smdpp.Initiate.{
  pkid_list, check_verification_chain, check_initiate, open_session, initiate_authentication,
}
use zk_e_sim_smdp.Smdpp.Authenticate.{authenticate_client}
use zk_e_sim_smdp.Smdpp.Authenticate.Checks.{
  first, join_path, has_prefix, parse_client, attach, ecdsa_verify, verify_chain, refuse_chain,
  check_chain, check_signature1, find_profile, check_context, answer, profile_metadata, zk_window,
  zk_verify, check_client,
}
use zk_e_sim_smdp.Smdpp.Finish.{session_verify}
use zk_e_sim_smdp.Smdpp.Download.{
  get_bound_profile_package, prepare_package, check_download, check_response, agree_keys,
  bind_profile, profile_keys,
}
use zk_e_sim_smdp.Smdpp.Toy
use zk_e_sim_smdp.Smdpp.Toy.{backend, server, moment, shelf}
use zk_e_sim_smdp.Smdpp.Machine.{initiate, authenticate, download, phase, Change, Whole}
use zk_e_sim_smdp.Smdpp.Machine.Keeps.{progress}
use zk_e_sim_smdp.Smdpp.Machine.Effects.{seen, view}
use zk_e_sim_smdp.Smdpp.Machine.Steps.{
  Step, initiating, authenticating, downloading, Trace, finished, followed, Step-Change,
}
use zk_e_sim_smdp.Smdpp.Machine.Histories.{Trace-Whole}
use zk_e_sim_smdp.Smdpp.Machine.Order.{Through, Trace-in_order}

-- The stores behind the three requests of a client, in their order.
abbrev store₁ : SessionStore
store₁ = (initiate_authentication backend (server false) moment Toy.initiate []).1

abbrev store₂ : SessionStore
store₂ = (authenticate_client backend (server false) moment Toy.authenticate store₁).1

abbrev store₃ : SessionStore
store₃ = (get_bound_profile_package backend (server false) moment Toy.download store₂).1

opening : Step backend (server false) initiate [] store₁
opening = initiating moment Toy.initiate []

whole-Trace : Trace backend (server false) (initiate ∷ authenticate ∷ download ∷ []) [] store₃
whole-Trace = followed initiate (authenticate ∷ download ∷ []) [] store₁ store₃ opening (
    followed authenticate (download ∷ []) store₁ store₂ store₃
      (authenticating moment Toy.authenticate store₁)
      (followed download [] store₂ store₃ store₃ (downloading moment Toy.download store₂)
        (finished store₃)))

Step-Change_example : Change initiate (4 ∷ []) (view (4 ∷ []) []) (view (4 ∷ []) store₁)
Step-Change_example = Step-Change backend (server false) initiate [] store₁ opening (4 ∷ [])

Trace-in_order_example :
    Through backend
      (server false)
      (4 ∷ [])
      (initiate ∷ authenticate ∷ download ∷ [])
      (initiate ∷ authenticate ∷ download ∷ [])
      []
      store₃
      whole-Trace
Trace-in_order_example =
    Trace-in_order backend (server false) (initiate ∷ authenticate ∷ download ∷ []) store₃ (4 ∷ [])
      whole-Trace
      (unfold initiate_authentication check_initiate field beq digits_be pkid_list
          check_verification_chain select_ci_cert ci_get_cert_for_pkid cert_get_subject_key_id
          Store.contains Store.put Store.get open_session new_session authenticate_client
          parse_client extract_euicc_signed1 extract_signed get_rawtag get_rawtlv get_len get_tag
          get_one attach set_h_cert check_client check_chain cert_get_auth_key_id verify_chain
          new_set check_signed add_intermediate_cert insert verify_cert_chain chain_loop chain_step
          lookup refuse_chain check_signature1 ecdsa_verify ecdsa_tr03111_to_dss from_bytes_be
          zk_window first check_context find_profile join_path has_prefix zk_verify answer
          profile_metadata name_of add_notification new_metadata gen_store_metadata_request
          store_metadata_request class_number notification_info icon_of new_pmo to_bitstring
          get_bound_profile_package prepare_package check_download check_response
          extract_euicc_signed2 session_verify agree_keys bind_profile profile_keys new_instance
          from_upp encrypt_and_mac segments for_each encode from_kdf bsp_key_derivation put_len
          put_tag metadata_of gen_initialise_secure_channel gen_init_sec_chan_signed_part
          wrap_as_der_tlv encode_profile gen_replace_session_keys encode_seq mac_only view seen
          phase progress in
        refl)

-- The session that the first request opens.
abbrev opened_session : RspSessionState
opened_session = record (new_session (4 ∷ []) (6 ∷ []) (1 ∷ [])) {
  euicc_challenge = some (digits_be 16 0 []);
}

Trace-Whole_example : Whole (4 ∷ []) (progress opened_session)
Trace-Whole_example =
    Trace-Whole backend (server false) (initiate ∷ []) store₁ (4 ∷ []) opened_session
      (followed initiate [] [] store₁ store₁ opening (finished store₁))
      (unfold initiate_authentication check_initiate field beq digits_be pkid_list
          check_verification_chain select_ci_cert ci_get_cert_for_pkid cert_get_subject_key_id
          Store.contains Store.put Store.get open_session new_session in
        refl)
