-- ===== src/Smdpp/Http.antt =====
-- What osmo-smdpp.py puts around its handlers: the checks of the request's headers, the header of a
-- response, and the answer to an API error. `json.loads` is a parameter; what the server writes is
-- kept as a value.
pub mod Replies
mod Runs
use zk_e_sim_smdp.Common.{
  String, Bool, true, false, not, Option, none, some, List, [], ◌∷◌, if◌then◌else◌,
}
use zk_e_sim_smdp.Common.Outcome as O
use zk_e_sim_smdp.Common.Outcome.{Outcome, ok, err, api_error, Raised, guard, ◌>>◌}
use zk_e_sim_smdp.Common.Action as Action
use zk_e_sim_smdp.Common.Bytes.{Bytes}
use zk_e_sim_smdp.Common.Hex.{Text}
use zk_e_sim_smdp.Session.Store.{SessionStore}
use zk_e_sim_smdp.Smdpp.{Content}
use zk_e_sim_smdp.Smdpp.Authenticate.Checks.{has_prefix}

-- The headers that are looked at, none for a header that is missing, and the body.
pub record Request : Type 0 where
  pub content_type : Option Text
  pub admin_protocol : Option Text
  pub body : Bytes

-- "application/json" and "gsma/rsp/v"
abbrev pub json_type : Text
json_type =
    97 ∷ 112 ∷ 112 ∷ 108 ∷ 105 ∷ 99 ∷ 97 ∷ 116 ∷ 105 ∷ 111 ∷ 110 ∷ 47 ∷ 106 ∷ 115 ∷ 111 ∷ 110 ∷ []

abbrev pub rsp_version : Text
rsp_version = 103 ∷ 115 ∷ 109 ∷ 97 ∷ 47 ∷ 114 ∷ 115 ∷ 112 ∷ 47 ∷ 118 ∷ []

-- `not content_type or not content_type.startswith(...)`, the other way round
unfoldable pub is_json : Option Text → Bool
is_json none = false
is_json (some text) = has_prefix json_type text

-- A missing or empty version passes.
unfoldable pub is_supported : Option Text → Bool
is_supported none = true
is_supported (some []) = true
is_supported (some (c ∷ text)) = has_prefix rsp_version (c ∷ text)

unfoldable pub validate_request_headers : Request → Outcome (Unit {0})
unfolding is_json is_supported
validate_request_headers request =
    guard (is_json request.content_type) (api_error "1.2.1" "2.1")
    >> guard (is_supported request.admin_protocol) (api_error "1.2.2" "2.1")

-- The two codes of a status; the identifier and the message of an API error are left out, as they are
-- in `api_error`.
pub record StatusCode : Type 0 where
  pub subject_code : String
  pub reason_code : String

-- `build_status_code`
unfoldable pub build_status_code : String → String → StatusCode
build_status_code subject_code reason_code = record {
  subject_code = subject_code;
  reason_code = reason_code;
}

-- `functionExecutionStatus`
pub record ResponseHeader : Type 0 where
  pub status : String
  pub status_code_data : Option StatusCode

-- `build_resp_header`
unfoldable pub build_resp_header : String → Option StatusCode → ResponseHeader
build_resp_header status data_ = record { status = status; status_code_data = data_ }

-- What a client gets: nothing, an output behind its header, or a header only.
pub data Reply (A : Type 0) : Type 0 where
  empty : Reply A
  executed : ResponseHeader → A → Reply A
  failed : ResponseHeader → Reply A

-- `ApiError.encode`
unfoldable pub encode_error : {A : Type 0} → String → String → Reply A
encode_error subject reason =
    failed (build_resp_header "Failed" (some (build_status_code subject reason)))

-- `handle_apierror`: an API error becomes a reply, every other exception is passed on
unfoldable pub handle_apierror : {A : Type 0} → Outcome (Reply A) → Outcome (Reply A)
unfolding encode_error
handle_apierror (ok reply) = ok reply
handle_apierror (err (api_error subject reason)) = ok (encode_error subject reason)
handle_apierror (err e) = err e

-- The header in front of an output; None is an empty body.
unfoldable pub reply_with : {A : Type 0} → Option A → Reply A
reply_with none = empty
reply_with (some output) = executed (build_resp_header "Executed-Success" none) output

module _ (json_loads : Bytes → Outcome Content) where
  -- `rsp_api_wrapper`
  unfoldable pub rsp_api_wrapper :
      {A : Type 0}
      → (Content → Action.Action SessionStore (Option A))
      → Request
      → Action.Action SessionStore (Reply A)
  rsp_api_wrapper func request = Action.◌>>=◌ (Action.lift (validate_request_headers request)) λ _.
      Action.◌>>=◌ (Action.lift (json_loads request.body))
        λ content. Action.◌>>=◌ (func content) λ output. Action.pure (reply_with output)

  -- The wrapped handler, with the handler of API errors around it.
  unfoldable pub serve :
      {A : Type 0}
      → (Content → Action.Action SessionStore (Option A))
      → Request
      → Action.Action SessionStore (Reply A)
  serve func request rss =
      let (o, rss') = rsp_api_wrapper func request rss in (handle_apierror o, rss')
