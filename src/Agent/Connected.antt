-- ===== src/Agent/Connected.antt =====
-- An agent whose stub is connected to the master's handlers, over a connection that loses nothing: the
-- interface that the agent takes as a parameter, filled by the handlers of AgentServiceImpl.
use certos.Base.{ℕ, Option, none, some}
use certos.Messages.{JobInfo}
use certos.Master.Jobs.{JobManager}
use certos.Master.Nodes.{NodeRegistry}
use certos.Master.Rpc.{Result, ok, error}
use certos.Master.Agents.{
  register_node_call, send_heartbeat, fetch_job, report_job_started, report_job_completed,
  report_job_failed,
}
use certos.Agent.Client.{AgentStub}

-- The part of the master's state that the agents' calls use.
pub record Master (S : Type 0) : Type 0 where
  pub jobs : JobManager S
  pub nodes : NodeRegistry

abbrev pub received : {R : Type 0} → Result R → Option R
received (ok response) = some response
received (error code message) = none

-- The readings of the clock and the random draws of one call.
pub record Readings : Type 0 where
  pub now : ℕ
  pub now_at : JobInfo → ℕ
  pub draw : ℕ → ℕ
  pub now_id : ℕ → ℕ

unfoldable pub connected : {S Double : Type 0} → Readings → AgentStub (Master S) Double
connected r = record {
  register_node = λ token request m.
      let (nodes, result) = register_node_call r.draw r.now_id request m.nodes in
      (record m { nodes = nodes }, received result);
  send_heartbeat = λ beat m.
      let (nodes, result) = send_heartbeat r.now r.now_at beat.request m.jobs m.nodes in
      (record m { nodes = nodes }, received result);
  fetch_job = λ request m. (m, received (fetch_job request.node_id m.jobs));
  report_job_started = λ report m.
      let (jobs, result) = report_job_started r.now report.job_id report.node_id m.jobs in
      (record m { jobs = jobs }, received result);
  report_job_completed = λ report m.
      let (jobs, result) = report_job_completed r.now report.job_id report.node_id m.jobs in
      (record m { jobs = jobs }, received result);
  report_job_failed = λ report m.
      let (jobs, result) = report_job_failed r.now report.job_id report.node_id m.jobs in
      (record m { jobs = jobs }, received result);
}
