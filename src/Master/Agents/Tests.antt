-- ===== src/Master/Agents/Tests.antt =====
-- Examples of what agents are told.
use certos.Base.{
  true, none, [], ◌∷◌, ◌≡◌, refl, txt, find, text_beq, arith, Memᴰ, Each-of_All, DistinctKeys,
}
use certos.Messages.{JobInfo, running, assigned, status_is}
use certos.Master.Jobs.{JobManager, get_job, cancel_job}
use certos.Master.Jobs.Lifecycle.{Inv, JobInv}
use certos.Master.Nodes.{NodeRegistry, get_node}
use certos.Master.Rpc.{ok}
use certos.Master.Agents.{HeartbeatRequest, HeartbeatResponse, send_heartbeat}
use certos.Master.Agents.Cancellation.{cancel_reaches_agent}
use certos.Master.Samples.{map_store, sample_job, sample_node, two_cores}

abbrev waiting_job : JobInfo
waiting_job = record (sample_job (txt "job-a") 7) {
  status = assigned;
  assigned_node_id = txt "node-1";
}

abbrev running_job : JobInfo
running_job = record (sample_job (txt "job-b") 8) {
  status = running;
  assigned_node_id = txt "node-1";
  started_at = 9;
}

abbrev table : JobManager map_store.Store
table = record { jobs = (txt "job-a", waiting_job) ∷ (txt "job-b", running_job) ∷ []; db = none }

agent_code : Unit {0}
unfolding find text_beq status_is get_job
agent_code = tt

table-DistinctKeys : DistinctKeys table.jobs
unfolding agent_code
table-DistinctKeys = (refl, (refl, tt))

waiting_job-JobInv : JobInv (txt "job-a") waiting_job
unfolding agent_code
waiting_job-JobInv = record {
  named = refl;
  used = tt;
  unplaced = λ e. cc;
  unstarted = λ e. cc;
  unended = λ e. cc;
  started = λ e. cc;
  ended = λ e. cc;
  prioritised = refl;
}

running_job-JobInv : JobInv (txt "job-b") running_job
unfolding agent_code
running_job-JobInv = record {
  named = refl;
  used = tt;
  unplaced = λ e. cc;
  unstarted = λ e. cc;
  unended = λ e. cc;
  started = λ e. omega arith;
  ended = λ e. cc;
  prioritised = refl;
}

table-Inv : Inv table
table-Inv = record {
  distinct = table-DistinctKeys;
  each = Each-of_All JobInv table.jobs (waiting_job-JobInv, (running_job-JobInv, tt));
}

abbrev registry : NodeRegistry
registry = (txt "node-1", sample_node (txt "node-1") (txt "alpha")) ∷ []

abbrev beat : HeartbeatRequest
beat = record { node_id = txt "node-1"; available_resources = two_cores; running_jobs = 1 }

cancel_reaches_agent_example :
    (r : HeartbeatResponse) × ((send_heartbeat 103
        (λ i. 103)
        beat
        (cancel_job 100 (txt "job-b") table).0
        registry).1
      ≡ ok r)
    × (r.acknowledged ≡ true)
    × Memᴰ (txt "job-b") r.jobs_to_cancel
unfolding agent_code get_node
cancel_reaches_agent_example =
    cancel_reaches_agent map_store 100 103 (λ i. 103) (txt "job-b") beat table registry running_job
      (sample_node (txt "node-1") (txt "alpha")) table-Inv (omega arith) refl refl refl refl
      (λ i. omega arith)
