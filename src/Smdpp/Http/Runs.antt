-- ===== src/Smdpp/Http/Runs.antt =====
-- Replies of the server at a concrete request: a wrapped `cancelSession`.
use zk_e_sim_smdp.Common.{false, none, some, [], ◌∷◌, ◌≡◌, ◌↔◌}
use zk_e_sim_smdp.Common.Outcome.{ok}
use zk_e_sim_smdp.Smdpp.Finish.{cancel_session}
use zk_e_sim_smdp.Smdpp.Toy.{backend, server, shelf, cancel}
use zk_e_sim_smdp.Smdpp.Http.{Request, json_type, build_resp_header, executed, serve}
use zk_e_sim_smdp.Smdpp.Http.Replies.{Answered, serve_executed_iff}

abbrev request : Request
request = record { content_type = some json_type; admin_protocol = none; body = [] }

serve_executed_iff_example :
    (serve (λ _. ok cancel) (cancel_session backend (server false)) request shelf
      ≡ (ok (executed (build_resp_header "Executed-Success" none) (4 ∷ [])), []))
    ↔ (Answered (λ _. ok cancel) (cancel_session backend (server false)) request (4 ∷ []) shelf []
        × (build_resp_header "Executed-Success" none ≡ build_resp_header "Executed-Success" none))
serve_executed_iff_example =
    serve_executed_iff (λ _. ok cancel) (cancel_session backend (server false)) request shelf []
      (build_resp_header "Executed-Success" none) (4 ∷ [])
