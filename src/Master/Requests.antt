-- ===== src/Master/Requests.antt =====
-- master/src/grpc_service.cpp: the handlers of MasterServiceImpl for public job requests. Their state is
-- the request half of `admin_db_` and, where they submit a job, the job manager.
pub mod Review
mod Kept
mod Tests
use mathlib.Core.Option
use certos.Base.{
  ℕ, ◌%◌, Bool, true, false, List, map, Option, none, some, ◌++◌, Text, txt, if◌then◌else◌, find,
  is_empty, to_string,
}
use certos.Messages.{JobRequestStatus, pending, approved, rejected, JobRequest, JobSpec}
use certos.Master.KeyValue.{KvStore}
use certos.Master.Jobs.{JobManager, submit_job}
use certos.Master.RequestStore.{RequestStore, RequestJson}
use certos.Master.Rpc.{Result, ok, error, not_found, internal, StatusResponse}

abbrev pub request_status_number : JobRequestStatus → ℕ
request_status_number pending = 0
request_status_number approved = 1
request_status_number rejected = 2

-- The request as it is stored first: `number` is what `rand()` gives.
unfoldable pub received : ℕ → ℕ → JobRequest → JobRequest
received now number request = record request {
  request_id =
      if is_empty request.request_id
      then txt "req-" ++ to_string now ++ txt "-" ++ to_string (number % 1000)
      else request.request_id;
  submitted_at = now;
  status = pending;
}

abbrev pub reviewed : ℕ → Bool → Text → JobRequest → JobRequest
reviewed now approve comment req = record req {
  reviewed_at = now;
  review_comment = comment;
  status = if approve then approved else rejected;
}

unfoldable pub with_archive : Text → JobRequest → JobRequest
with_archive archive_path req =
    if is_empty archive_path
    then req
    else record req { requested_spec = record (req.requested_spec) { archive_path = archive_path } }

abbrev pub says : Bool → Text → Result StatusResponse
says success message = ok (record { success = success; message = message })

-- `target_json`: the data of the first request with the id, or the empty text.
abbrev pub or_empty : Option Text → Text
or_empty none = txt ""
or_empty (some json) = json

module _ (rs : RequestStore) (js : RequestJson) where
  open rs use {Store, add_job_request, update_request_status, list_requests}
  open js use {print, parse}

  unfoldable pub submit_public_request : ℕ → ℕ → JobRequest → Store → Store × Result StatusResponse
  submit_public_request now number request st =
      let req = received now number request in
      elim (print req) [
        | none ↦ (st, says false (txt "Failed to serialize request"))
        | some json_data ↦
            let r =
              add_job_request st req.request_id req.applicant_email
                (request_status_number req.status) json_data in
            if r.1
            then (r.0, says true req.request_id)
            else (r.0, says false (txt "Failed to store request in database"))
      ]

  abbrev pub target_json : Text → Store → Text
  target_json request_id st = or_empty (find request_id (list_requests st))

  -- What the handlers do with the request that they changed, once it is printed.
  abbrev pub store_request : JobRequest → Text → Store → Store
  store_request req json_data st =
      (update_request_status st req.request_id (request_status_number req.status) json_data).0

  unfoldable pub store_update : JobRequest → Store → Store × Result StatusResponse
  store_update req st = elim (print req) [
    | none ↦ (st, says false (txt "Failed to serialize update"))
    | some json_data ↦ (store_request req json_data st, says true (txt ""))
  ]

  -- The request's other fields are not read.
  unfoldable pub update_job_request : Text → Text → Store → Store × Result StatusResponse
  unfolding store_update
  update_job_request request_id archive_path st =
      if is_empty (target_json request_id st)
      then (st, says false (txt "Request not found"))
      else if (parse (target_json request_id st)).1
      then store_update (with_archive archive_path (parse (target_json request_id st)).0) st
      else (st, says false (txt "Failed to parse request"))

  unfoldable pub admin_list_requests : Store → Result (List JobRequest)
  admin_list_requests st = ok (map (λ (r : Text × Text). (parse r.1).0) (list_requests st))

  module _ (kv : KvStore) where
    -- The job of an approved request.
    unfoldable pub submit_approved :
        (ℕ → ℕ) → ℕ → Bool → JobRequest → JobManager kv.Store → JobManager kv.Store
    submit_approved draw now approve req s =
        if approve
        then (submit_job kv draw now req.requested_spec (txt "public-user") req.applicant_name s).0
        else s

    abbrev pub verdict : Bool → Text
    verdict approve =
        if approve then txt "Request approved and job scheduled" else txt "Request rejected"

    unfoldable pub store_review :
        Bool
        → JobRequest
        → Store
        → JobManager kv.Store
        → (Store × JobManager kv.Store) × Result StatusResponse
    store_review approve req st s = elim (print req) [
      | none ↦ ((st, s), error internal (txt "Failed to serialize request"))
      | some json_data ↦ ((store_request req json_data st, s), says true (verdict approve))
    ]

    -- The clock is read for the review, at `now`, and by the job manager, at `now_job`.
    unfoldable pub admin_review_request :
        (ℕ → ℕ)
        → ℕ
        → ℕ
        → Text
        → Bool
        → Text
        → Store
        → JobManager kv.Store
        → (Store × JobManager kv.Store) × Result StatusResponse
    unfolding store_review
    admin_review_request draw now now_job request_id approve comment st s =
        if is_empty (target_json request_id st)
        then ((st, s), error not_found (txt "Request not found"))
        else if (parse (target_json request_id st)).1
        then store_review approve
            (reviewed now approve comment (parse (target_json request_id st)).0) st
            (submit_approved draw now_job approve (parse (target_json request_id st)).0 s)
        else ((st, s), error internal (txt "Failed to parse stored request"))
