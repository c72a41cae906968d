-- ===== src/X509/Runs.antt =====
-- A chain of two certificates under a root, and the theorem about chains at it.
use zk_e_sim_smdp.Common.{ℕ, ◌<◌, ◌≡◌, refl, ◌↔◌, Bool, true, none, some, [], ◌∷◌, arith}
use zk_e_sim_smdp.Common.Outcome.{ok, err, verify_error}
use zk_e_sim_smdp.Common.Bytes.{Bytes, beq}
use zk_e_sim_smdp.X509.{
  Certificate, CertificateSet, lookup, chain_step, chain_loop, verify_cert_chain,
}
use zk_e_sim_smdp.X509.Chain.{Chain, verify_cert_chain_iff}

abbrev cert : Bytes → Bytes → Certificate
cert ski aki = record {
  der = ski;
  subject_key_id = some ski;
  auth_key_id = some aki;
  key_usage = none;
  policies = [];
  serial_number = [];
}

abbrev all_signed : Certificate → Certificate → Bool
all_signed signed signer = true

abbrev set : CertificateSet
set = record {
  root_cert = cert (1 ∷ []) (1 ∷ []);
  intermediate_certs = (2 ∷ [], cert (2 ∷ []) (1 ∷ [])) ∷ [];
}

verifies : verify_cert_chain all_signed set (cert (3 ∷ []) (2 ∷ [])) 100 ≡ ok tt
unfolding verify_cert_chain chain_loop chain_step lookup beq
verifies = refl

too_deep : verify_cert_chain all_signed set (cert (3 ∷ []) (2 ∷ [])) 1 ≡ err verify_error
unfolding verify_cert_chain chain_loop chain_step lookup beq
too_deep = refl

verify_cert_chain_iff_example :
    (verify_cert_chain all_signed set (cert (3 ∷ []) (2 ∷ [])) 100 ≡ ok tt)
    ↔ ((n : ℕ) × (n < 100) × Chain all_signed set n (cert (3 ∷ []) (2 ∷ [])))
verify_cert_chain_iff_example =
    verify_cert_chain_iff all_signed set (cert (3 ∷ []) (2 ∷ [])) 100 (omega arith)
