-- ===== src/Gateway/Bridge/Calls.antt =====
-- gateway/src/grpc_bridge.cpp: the methods of GrpcBridge, over what is beyond the connection. A method
-- that reads a body throws before it calls.
use certos.Base.{Bool, [], ◌∷◌, Text, txt, if◌then◌else◌, ◌==◌, text_eq}
use certos.Messages.{JobSpec, new_JobSpec, JobRequest, new_JobRequest, UserRole}
use certos.Gateway.Json.{Json, Try, threw, got, ◌>>=◌, at, optional_text}
use certos.Gateway.Bridge.{
  Credentials, CreateUserRequest, MasterStub, setup_context, submitted_spec, outcome_json,
  login_json, list_json, node_json, job_json, submit_job_json, cluster_json, cancel_job_json,
  request_json, create_user_json, user_json,
}

module _ (js : Json) where
  open js use {Object, of_text, value_to_text, as_string}

  unfoldable pub credentials : Object → Try Credentials
  credentials body = do
    username ← optional_text js (txt "username") body
    password ← optional_text js (txt "password") body
    got (record { username = username; password = password })

  unfoldable pub create_user_request : Object → Try CreateUserRequest
  create_user_request body = do
    name ← at js (txt "username") body
    username ← value_to_text name
    word ← at js (txt "password") body
    password ← value_to_text word
    kind ← at js (txt "role") body
    role ← as_string kind
    got (record {
      username = username;
      password = password;
      role = if role == txt "admin" then UserRole.admin else UserRole.user;
    })

  -- The call for a request that was read, unless the reading threw.
  abbrev pub calls : {M A : Type 0} → Try A → (A → M × Object) → M → M × Try Object
  calls (threw what) k m = (m, threw what)
  calls (got req) k m = let (m', o) = k req in (m', got o)

  -- The job of a body, which has no resources.
  unfoldable pub spec_of : Object → Try JobSpec
  spec_of body = do
    name ← optional_text js (txt "name") body
    command ← optional_text js (txt "command") body
    got (submitted_spec name command)

  module _ {M : Type 0} (stub : MasterStub M) where
    unfoldable pub login : Object → M → M × Try Object
    unfolding credentials
    login body m =
        calls (credentials body)
          (λ req. let (m', status) = stub.login req m in (m', login_json js status)) m

    unfoldable pub list_nodes : Text → M → M × Object
    unfolding setup_context
    list_nodes token m =
        let (m', status) = stub.list_nodes (setup_context token) m in
        (m', list_json js (txt "nodes") (node_json js) status)

    unfoldable pub list_jobs : Text → M → M × Object
    unfolding setup_context
    list_jobs token m =
        let (m', status) = stub.list_jobs (setup_context token) m in
        (m', list_json js (txt "jobs") (job_json js) status)

    unfoldable pub submit_job : Text → Object → M → M × Try Object
    unfolding setup_context spec_of
    submit_job token body m =
        calls (spec_of body)
          (λ spec.
            let (m', status) = stub.submit_job (setup_context token) spec m in
            (m', submit_job_json js status))
          m

    unfoldable pub get_cluster_status : Text → M → M × Object
    unfolding setup_context
    get_cluster_status token m =
        let (m', status) = stub.get_cluster_status (setup_context token) m in
        (m', cluster_json js status)

    unfoldable pub cancel_job : Text → Text → M → M × Object
    unfolding setup_context
    cancel_job token job_id m =
        let (m', status) = stub.cancel_job (setup_context token) job_id m in
        (m', cancel_job_json js status)

    -- The id in the answer is the one that the client's request has.
    unfoldable pub submit_public_request : JobRequest → M → M × Object
    submit_public_request request m =
        let (m', status) = stub.submit_public_request request m in
        (
          m',
          outcome_json js
              (λ res.
                (txt "request_id", of_text request.request_id)
                ∷ (txt "message", of_text res.message)
                ∷ [])
              status,
        )

    unfoldable pub admin_list_requests : Text → M → M × Object
    unfolding setup_context
    admin_list_requests token m =
        let (m', status) = stub.admin_list_requests (setup_context token) m in
        (m', list_json js (txt "requests") (request_json js) status)

    unfoldable pub admin_review_request : Text → Text → Bool → Text → M → M × Object
    unfolding setup_context
    admin_review_request token req_id approve comment m =
        let (m', status) =
          stub.admin_review_request (setup_context token)
            (record { request_id = req_id; approve = approve; comment = comment }) m in
        (m', outcome_json js (λ res. (txt "message", of_text res.message) ∷ []) status)

    unfoldable pub update_request_archive : Text → Text → M → M × Object
    update_request_archive req_id archive_path m =
        let (m', status) =
          stub.update_job_request
            (record new_JobRequest {
              request_id = req_id;
              requested_spec = record new_JobSpec { archive_path = archive_path };
            })
            m in
        (m', outcome_json js (λ res. []) status)

    unfoldable pub create_user : Text → Object → M → M × Try Object
    unfolding setup_context create_user_request
    create_user token body m =
        calls (create_user_request body)
          (λ req.
            let (m', status) = stub.create_user (setup_context token) req m in
            (m', create_user_json js status))
          m

    unfoldable pub admin_list_users : Text → M → M × Object
    unfolding setup_context
    admin_list_users token m =
        let (m', status) = stub.admin_list_users (setup_context token) m in
        (m', list_json js (txt "users") (user_json js) status)

    unfoldable pub admin_delete_user : Text → Text → M → M × Object
    unfolding setup_context
    admin_delete_user token username m =
        let (m', status) = stub.admin_delete_user (setup_context token) username m in
        (m', outcome_json js (λ res. []) status)
