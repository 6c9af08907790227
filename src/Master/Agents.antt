-- ===== src/Master/Agents.antt =====
-- master/src/grpc_service.cpp: AgentServiceImpl, the handlers that the agents on the nodes call. The
-- intervals that a node is given are the defaults of lib/common/include/certosc/common/types.h. The messages have
-- the fields that the handlers read or fill in.
pub mod Dispatch
pub mod Cancellation
pub mod Reports
mod Tests
use certos.Base.{
  ℕ, Bool, true, false, List, [], ◌∷◌, Option, none, some, Text, txt, if◌then◌else◌, ◌==◌, text_eq,
}
use certos.Messages.{
  ResourceSpec, JobSpec, JobInfo, JobStatus, assigned, running, completed, failed, NodeInfo,
  new_NodeInfo, new_JobSpec,
}
use certos.Master.Jobs.{JobManager, list_jobs, update_job_status, get_jobs_to_cancel_for_node}
use certos.Master.Nodes.{NodeRegistry, register_node, update_heartbeat}
use certos.Master.Rpc.{Result, ok, StatusResponse}

pub record RegisterNodeRequest : Type 0 where
  pub hostname : Text
  pub ip_address : Text
  pub port : ℕ
  pub os_info : Text
  pub total_resources : ResourceSpec

pub record RegisterNodeResponse : Type 0 where
  pub success : Bool
  pub node_id : Text
  pub message : Text
  pub heartbeat_interval_seconds : ℕ
  pub metrics_interval_seconds : ℕ

pub record HeartbeatRequest : Type 0 where
  pub node_id : Text
  pub available_resources : ResourceSpec
  pub running_jobs : ℕ

pub record HeartbeatResponse : Type 0 where
  pub acknowledged : Bool
  pub jobs_to_cancel : List Text
  pub message : Text

pub record FetchJobResponse : Type 0 where
  pub has_job : Bool
  pub job_id : Text
  pub spec : JobSpec

abbrev pub node_info : RegisterNodeRequest → NodeInfo
node_info request = record new_NodeInfo {
  hostname = request.hostname;
  ip_address = request.ip_address;
  port = request.port;
  os_info = request.os_info;
  total_resources = request.total_resources;
}

unfoldable pub register_node_call :
    (ℕ → ℕ)
    → (ℕ → ℕ)
    → RegisterNodeRequest
    → NodeRegistry
    → NodeRegistry × Result RegisterNodeResponse
register_node_call draw now request nodes =
    let (nodes', node_id) = register_node draw now (node_info request) nodes in
    (
      nodes',
      ok (record {
        success = true;
        node_id = node_id;
        message = txt "Registration successful";
        heartbeat_interval_seconds = 5;
        metrics_interval_seconds = 5;
      }),
    )

-- The loop of `FetchJob` over the assigned jobs.
unfoldable pub first_for : Text → List JobInfo → FetchJobResponse
first_for node_id [] = record { has_job = false; job_id = []; spec = new_JobSpec }
first_for node_id (job ∷ jobs) =
    if job.assigned_node_id == node_id
    then record { has_job = true; job_id = job.job_id; spec = job.spec }
    else first_for node_id jobs

module _ {S : Type 0} where
  -- `now` is the registry's reading of the clock, `now_at` are the job manager's.
  unfoldable pub send_heartbeat :
      ℕ
      → (JobInfo → ℕ)
      → HeartbeatRequest
      → JobManager S
      → NodeRegistry
      → NodeRegistry × Result HeartbeatResponse
  send_heartbeat now now_at request s nodes =
      let (nodes', done) =
        update_heartbeat now request.node_id request.available_resources request.running_jobs
          nodes in
      (
        nodes',
        ok (
            if done
            then record {
              acknowledged = true;
              jobs_to_cancel = get_jobs_to_cancel_for_node now_at request.node_id s;
              message = [];
            }
            else record {
              acknowledged = false;
              jobs_to_cancel = [];
              message = txt "Node not registered";
            }),
      )

  unfoldable pub fetch_job : Text → JobManager S → Result FetchJobResponse
  fetch_job node_id s = ok (first_for node_id (list_jobs assigned s))

  -- The three reports differ in the status. The other fields of a report are not read.
  unfoldable pub report_job :
      JobStatus → ℕ → Text → Text → JobManager S → JobManager S × Result StatusResponse
  report_job status now job_id node_id s =
      let (s', done) = update_job_status now job_id status node_id s in
      (s', ok (record { success = done; message = [] }))

  abbrev pub report_job_started :
      ℕ → Text → Text → JobManager S → JobManager S × Result StatusResponse
  report_job_started = report_job running

  abbrev pub report_job_completed :
      ℕ → Text → Text → JobManager S → JobManager S × Result StatusResponse
  report_job_completed = report_job completed

  abbrev pub report_job_failed :
      ℕ → Text → Text → JobManager S → JobManager S × Result StatusResponse
  report_job_failed = report_job failed
