-- ===== src/Agent/Client.antt =====
-- agent/src/agent_grpc_client.cpp: the agent's calls of the master. The generated stub and the
-- connection are a parameter: each method of it takes what is beyond the connection, changes it, and
-- gives the response if the status was OK. The master's time is read by `now`. Log lines are left out.
use certos.Base.{ℕ, Bool, true, false, List, [], Option, none, some, Text, txt, ℤ, if◌then◌else◌}
use certos.Messages.{ResourceSpec, JobSpec}
use certos.Master.Rpc.{StatusResponse}
use certos.Master.Agents.{
  RegisterNodeRequest, RegisterNodeResponse, HeartbeatRequest, HeartbeatResponse, FetchJobResponse,
}

-- The heartbeat with the fields that the master does not read.
pub record Heartbeat (Double : Type 0) : Type 0 where
  pub request : HeartbeatRequest
  pub cpu_usage_percent : Double
  pub ram_usage_percent : Double
  pub timestamp : ℕ

pub record FetchJobRequest : Type 0 where
  pub node_id : Text
  pub available_resources : ResourceSpec

pub record JobStartedReport : Type 0 where
  pub node_id : Text
  pub job_id : Text
  pub pid : ℕ
  pub started_at : ℕ

pub record JobCompletedReport : Type 0 where
  pub node_id : Text
  pub job_id : Text
  pub exit_code : ℤ
  pub completed_at : ℕ
  pub stdout_data : Text
  pub stderr_data : Text

pub record JobFailedReport : Type 0 where
  pub node_id : Text
  pub job_id : Text
  pub error_message : Text
  pub exit_code : ℤ
  pub failed_at : ℕ

-- The stub of AgentService. The first argument of `register_node` is the call's metadata
-- "authorization".
pub record AgentStub (M Double : Type 0) : Type 0 where
  pub register_node : Text → RegisterNodeRequest → M → M × Option RegisterNodeResponse
  pub send_heartbeat : Heartbeat Double → M → M × Option HeartbeatResponse
  pub fetch_job : FetchJobRequest → M → M × Option FetchJobResponse
  pub report_job_started : JobStartedReport → M → M × Option StatusResponse
  pub report_job_completed : JobCompletedReport → M → M × Option StatusResponse
  pub report_job_failed : JobFailedReport → M → M × Option StatusResponse

pub record HeartbeatResult : Type 0 where
  pub ok : Bool
  pub jobs_to_cancel : List Text

-- `status.ok() && res.success()`
abbrev pub succeeded : Option StatusResponse → Bool
succeeded none = false
succeeded (some res) = res.success

abbrev pub registered : Option RegisterNodeResponse → Option Text
registered none = none
registered (some res) = if res.success then some res.node_id else none

abbrev pub heartbeat_result : Option HeartbeatResponse → HeartbeatResult
heartbeat_result none = record { ok = false; jobs_to_cancel = [] }
heartbeat_result (some res) =
    if res.acknowledged
    then record { ok = true; jobs_to_cancel = res.jobs_to_cancel }
    else record { ok = false; jobs_to_cancel = [] }

-- The job's id and specification.
abbrev pub fetched : Option FetchJobResponse → Option (Text × JobSpec)
fetched none = none
fetched (some res) = if res.has_job then some (res.job_id, res.spec) else none

module _ {M Double : Type 0} (stub : AgentStub M Double) where
  abbrev pub register_node : Text → Text → ℕ → ResourceSpec → M → M × Option Text
  register_node hostname ip port total_res m =
      let (m', status) =
        stub.register_node (txt "Bearer node-token")
          (record {
            hostname = hostname;
            ip_address = ip;
            port = port;
            os_info = txt "Linux (Agent)";
            total_resources = total_res;
          })
          m in
      (m', registered status)

  abbrev pub send_heartbeat :
      ℕ → Text → ResourceSpec → ℕ → Double → Double → M → M × HeartbeatResult
  send_heartbeat now node_id avail_res running_jobs cpu_pct ram_pct m =
      let (m', status) =
        stub.send_heartbeat
          (record {
            request = record {
              node_id = node_id;
              available_resources = avail_res;
              running_jobs = running_jobs;
            };
            cpu_usage_percent = cpu_pct;
            ram_usage_percent = ram_pct;
            timestamp = now;
          })
          m in
      (m', heartbeat_result status)

  abbrev pub fetch_job : Text → ResourceSpec → M → M × Option (Text × JobSpec)
  fetch_job node_id avail_res m =
      let (m', status) =
        stub.fetch_job (record { node_id = node_id; available_resources = avail_res }) m in
      (m', fetched status)

  abbrev pub report_job_started : ℕ → Text → Text → ℕ → M → M × Bool
  report_job_started now node_id job_id pid m =
      let (m', status) =
        stub.report_job_started
          (record { node_id = node_id; job_id = job_id; pid = pid; started_at = now }) m in
      (m', succeeded status)

  abbrev pub report_job_completed : ℕ → Text → Text → ℤ → Text → Text → M → M × Bool
  report_job_completed now node_id job_id exit_code stdout_data stderr_data m =
      let (m', status) =
        stub.report_job_completed
          (record {
            node_id = node_id;
            job_id = job_id;
            exit_code = exit_code;
            completed_at = now;
            stdout_data = stdout_data;
            stderr_data = stderr_data;
          })
          m in
      (m', succeeded status)

  abbrev pub report_job_failed : ℕ → Text → Text → Text → ℤ → M → M × Bool
  report_job_failed now node_id job_id error_msg exit_code m =
      let (m', status) =
        stub.report_job_failed
          (record {
            node_id = node_id;
            job_id = job_id;
            error_message = error_msg;
            exit_code = exit_code;
            failed_at = now;
          })
          m in
      (m', succeeded status)
