-- ===== src/Gateway/Bridge.antt =====
-- gateway/src/grpc_bridge.cpp: the calls of the master that the routes make, and the JSON that is made of
-- the answers. The generated stub and the connection are a parameter, as for the agent: a method takes
-- the call's metadata "authorization", the request and what is beyond the connection.
pub mod Calls
use certos.Base.{
  ℕ, Bool, true, false, ◌&&◌, List, [], ◌∷◌, ◌++◌, map, Option, none, some, Text, txt,
  if◌then◌else◌, is_empty, ◌==◌, text_eq,
}
use certos.Messages.{
  JobSpec, new_JobSpec, JobInfo, status_number, JobRequest, new_JobRequest, no_resources, NodeInfo,
  is_online, UserRole,
}
use certos.Master.Rpc.{StatusResponse}
use certos.Master.Accounts.{UserInfo, AuthToken}
use certos.Master.Requests.{request_status_number}
use certos.Gateway.Json.{Json, Try, threw, got, ◌>>=◌, object, at, optional_text}

-- The response, if the status is OK, or the status's message.
pub data Reply (R : Type 0) : Type 0 where
  replied : (response : R) → Reply R
  failed : (error_message : Text) → Reply R

pub record Credentials : Type 0 where
  pub username : Text
  pub password : Text

pub record CreateUserRequest : Type 0 where
  pub username : Text
  pub password : Text
  pub role : UserRole

pub record ReviewRequest : Type 0 where
  pub request_id : Text
  pub approve : Bool
  pub comment : Text

-- The fields of `ClusterInfo` that are read.
pub record ClusterInfo : Type 0 where
  pub online_nodes : ℕ
  pub running_jobs : ℕ
  pub queued_jobs : ℕ

-- The stub of MasterService, with the requests' fields that are filled in.
pub record MasterStub (M : Type 0) : Type 0 where
  pub login : Credentials → M → M × Reply AuthToken
  pub list_nodes : Option Text → M → M × Reply (List NodeInfo)
  pub list_jobs : Option Text → M → M × Reply (List JobInfo)
  pub submit_job : Option Text → JobSpec → M → M × Reply JobInfo
  pub get_cluster_status : Option Text → M → M × Reply ClusterInfo
  pub cancel_job : Option Text → Text → M → M × Reply StatusResponse
  pub submit_public_request : JobRequest → M → M × Reply StatusResponse
  pub admin_list_requests : Option Text → M → M × Reply (List JobRequest)
  pub admin_review_request : Option Text → ReviewRequest → M → M × Reply StatusResponse
  pub update_job_request : JobRequest → M → M × Reply StatusResponse
  pub create_user : Option Text → CreateUserRequest → M → M × Reply UserInfo
  pub admin_list_users : Option Text → M → M × Reply (List UserInfo)
  pub admin_delete_user : Option Text → Text → M → M × Reply StatusResponse

-- The metadata that is added for a token.
unfoldable pub setup_context : Text → Option Text
setup_context token = if is_empty token then none else some (txt "Bearer " ++ token)

abbrev pub role_text : UserRole → Text
role_text UserRole.admin = txt "admin"
role_text _ = txt "user"

-- The job that a body without resources asks for.
abbrev pub submitted_spec : Text → Text → JobSpec
submitted_spec name command = record new_JobSpec {
  name = name;
  command = command;
  resources = record no_resources { cpu_cores = 1; ram_mb = 1024 };
}

module _ (js : Json) where
  open js use {
    Object, Value, of_bool, of_text, of_number, of_object, of_array, value_to_text, as_string,
  }

  abbrev pub failure_json : Text → Object
  failure_json message =
      object js ((txt "success", of_bool false) ∷ (txt "error", of_text message) ∷ [])

  -- "success" is what the status and the response say together; the other member is of `members`, or
  -- the error.
  abbrev pub outcome_json : (StatusResponse → List (Text × Value)) → Reply StatusResponse → Object
  outcome_json members (failed message) = failure_json message
  outcome_json members (replied res) =
      if res.success
      then object js ((txt "success", of_bool true) ∷ members res)
      else failure_json res.message

  abbrev pub login_json : Reply AuthToken → Object
  login_json (failed message) = failure_json message
  login_json (replied res) = object js (
      (txt "success", of_bool true)
      ∷ (txt "access_token", of_text res.access_token)
      ∷ (
        txt "user",
        of_object (
            object js (
              (txt "username", of_text res.user.username)
              ∷ (txt "role", of_text (role_text res.user.role))
              ∷ [])),
      )
      ∷ [])

  abbrev pub node_json : NodeInfo → Value
  node_json n = of_object (
      object js (
        (txt "id", of_text n.node_id)
        ∷ (txt "hostname", of_text n.hostname)
        ∷ (txt "ip", of_text n.ip_address)
        ∷ (txt "status", of_text (if is_online n.status then txt "online" else txt "offline"))
        ∷ (
          txt "resources",
          of_object (
              object js (
                (txt "cpu_cores", of_number n.available_resources.cpu_cores)
                ∷ (txt "ram_mb", of_number n.available_resources.ram_mb)
                ∷ [])),
        )
        ∷ []))

  abbrev pub list_json : {A : Type 0} → Text → (A → Value) → Reply (List A) → Object
  list_json name item (failed message) = failure_json message
  list_json name item (replied items) =
      object js ((txt "success", of_bool true) ∷ (name, of_array (map item items)) ∷ [])

  abbrev pub job_json : JobInfo → Value
  job_json j = of_object (
      object js (
        (txt "job_id", of_text j.job_id)
        ∷ (txt "username", of_text j.username)
        ∷ (txt "status", of_number (status_number j.status))
        ∷ (txt "submitted_at", of_number j.submitted_at)
        ∷ (
          txt "spec",
          of_object (
              object js
                ((txt "name", of_text j.spec.name) ∷ (txt "command", of_text j.spec.command) ∷ [])),
        )
        ∷ (txt "assigned_node_id", of_text j.assigned_node_id)
        ∷ []))

  abbrev pub submit_job_json : Reply JobInfo → Object
  submit_job_json (failed message) = failure_json message
  submit_job_json (replied res) =
      object js ((txt "success", of_bool true) ∷ (txt "job_id", of_text res.job_id) ∷ [])

  abbrev pub cluster_json : Reply ClusterInfo → Object
  cluster_json (failed message) = failure_json message
  cluster_json (replied res) = object js (
      (txt "success", of_bool true)
      ∷ (txt "online_nodes", of_number res.online_nodes)
      ∷ (txt "running_jobs", of_number res.running_jobs)
      ∷ (txt "queued_jobs", of_number res.queued_jobs)
      ∷ [])

  abbrev pub cancel_job_json : Reply StatusResponse → Object
  cancel_job_json (failed message) = failure_json message
  cancel_job_json (replied res) =
      object js ((txt "success", of_bool res.success) ∷ (txt "message", of_text res.message) ∷ [])

  abbrev pub request_json : JobRequest → Value
  request_json r = of_object (
      object js (
        (txt "request_id", of_text r.request_id)
        ∷ (txt "applicant_name", of_text r.applicant_name)
        ∷ (txt "applicant_email", of_text r.applicant_email)
        ∷ (txt "project_goal", of_text r.project_goal)
        ∷ (txt "status", of_number (request_status_number r.status))
        ∷ (txt "submitted_at", of_number r.submitted_at)
        ∷ (
          txt "requested_spec",
          of_object (
              object js (
                (
                  txt "resources",
                  of_object (
                      object js (
                        (txt "cpu_cores", of_number r.requested_spec.resources.cpu_cores)
                        ∷ (txt "ram_mb", of_number r.requested_spec.resources.ram_mb)
                        ∷ [])),
                )
                ∷ [])),
        )
        ∷ []))

  abbrev pub create_user_json : Reply UserInfo → Object
  create_user_json (failed message) = failure_json message
  create_user_json (replied res) =
      object js ((txt "success", of_bool true) ∷ (txt "username", of_text res.username) ∷ [])

  abbrev pub user_json : UserInfo → Value
  user_json u = of_object (
      object js
        ((txt "username", of_text u.username) ∷ (txt "role", of_text (role_text u.role)) ∷ []))
