-- ===== src/Master/JobCalls.antt =====
-- master/src/grpc_service.cpp: the handlers of MasterServiceImpl for jobs and nodes. The state is that
-- of the component that a handler calls. `metadata` is what the client sent as "authorization".
pub mod Submission
use mathlib.Core.Option
use certos.Base.{
  ℕ, Bool, true, false, List, Option, none, some, Text, txt, if◌then◌else◌, find_text, substr_from,
  ◌+◌, length, ◌%◌, ◌^◌,
}
use certos.Messages.{JobStatus, JobSpec, JobInfo, NodeInfo}
use certos.Master.KeyValue.{KvStore}
use certos.Master.Jobs.{JobManager, submit_job, get_job, list_jobs, cancel_job}
use certos.Master.Nodes.{NodeRegistry, get_all_nodes}
use certos.Master.Rpc.{Result, ok, error, not_found, internal, StatusResponse}

-- The user whom the token names: what follows "mock-jwt-for-" in it.
unfoldable pub username_of : Option Text → Text
username_of none = txt "unknown"
username_of (some auth) = elim (find_text auth (txt "mock-jwt-for-")) [
  | none ↦ txt "unknown"
  | some at ↦ substr_from auth (at + 13)
]

pub record ListJobsResponse : Type 0 where
  pub jobs : List JobInfo
  pub total_count : ℕ

module _ (kv : KvStore) where
  open kv use {Store}

  unfoldable pub get_job_status : Text → JobManager Store → Result JobInfo
  get_job_status job_id s = elim (get_job job_id s) [
    | some job ↦ ok job
    | none ↦ error not_found (txt "Job not found")
  ]

  unfoldable pub submit_job_call :
      (ℕ → ℕ) → ℕ → Option Text → JobSpec → JobManager Store → JobManager Store × Result JobInfo
  unfolding username_of
  submit_job_call draw now metadata spec s =
      let username = username_of metadata in
      let (s', job_id) = submit_job kv draw now spec username username s in
      (
        s',
        elim (get_job job_id s') [
          | some job ↦ ok job
          | none ↦ error internal (txt "Failed to retrieve submitted job")
        ],
      )

  unfoldable pub cancel_job_call :
      ℕ → Text → JobManager Store → JobManager Store × Result StatusResponse
  cancel_job_call now job_id s =
      let (s', done) = cancel_job now job_id s in
      (
        s',
        ok (record {
          success = done;
          message =
              if done
              then txt "Job marked for cancellation"
              else txt "Failed to cancel job or job not found";
        }),
      )

  -- The request's other fields are not read.
  unfoldable pub list_jobs_call : JobStatus → JobManager Store → Result ListJobsResponse
  list_jobs_call status_filter s =
      let jobs = list_jobs status_filter s in
      ok (record { jobs = jobs; total_count = length jobs % 2 ^ 32 })

unfoldable pub list_nodes_call : NodeRegistry → Result (List NodeInfo)
list_nodes_call nodes = ok (get_all_nodes nodes)
