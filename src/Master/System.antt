-- ===== src/Master/System.antt =====
-- The master as one system: the handlers of master/src/grpc_service.cpp that write jobs or nodes, which
-- the gRPC server calls on any thread, the thread of master/src/scheduler/scheduler_engine.cpp, and its
-- start and stop by master/src/master_server.cpp. Each locks one component at a time, so a run is a
-- sequence of their moves in any order. A handler that changes jobs or nodes calls the manager of these
-- once to change them, and is one move. `CreateUser`, `UpdateJobRequest` and `AdminReviewRequest` besides
-- call the state store several times, between which other calls may come; here these calls are part of
-- the one move. Handlers that only read are left out. The two halves of `admin_db_` are apart, as
-- their interfaces are.
pub mod Invariant
pub mod Race
pub mod Final
pub mod Through
mod Tests
use mathlib.Core.Option
use certos.Base.{ℕ, ◌<◌, List, [], ◌∷◌, Option, none, some, Text, ◌≡◌, Bool, true, find}
use certos.Messages.{JobSpec, JobInfo, JobRequest, NodeInfo, UserRole}
use certos.Master.Double.{Double}
use certos.Master.KeyValue.{KvStore}
use certos.Master.Jobs.{JobManager}
use certos.Master.JobCalls.{submit_job_call, cancel_job_call}
use certos.Master.RequestStore.{RequestStore, RequestJson}
use certos.Master.Requests.{submit_public_request, update_job_request, admin_review_request}
use certos.Master.Accounts.{create_user}
use certos.Master.Nodes.{NodeRegistry}
use certos.Master.Agents.{
  RegisterNodeRequest, HeartbeatRequest, register_node_call, send_heartbeat, report_job_started,
  report_job_completed, report_job_failed,
}
use certos.Master.Scheduler.Engine.{
  Components, SchedulerEngine, start, stop_begins, stop_joins, turn,
}

-- What the master runs on.
pub record Platform : Type 1 where
  pub kv : KvStore
  pub rs : RequestStore
  pub js : RequestJson
  pub f : Double
  pub sort : (JobInfo → JobInfo → Bool) → List JobInfo → List JobInfo

pub record System (pf : Platform) : Type 0 where
  pub engine : SchedulerEngine
  pub parts : Components pf.kv.Store pf.f.D
  pub accounts : pf.kv.Store
  pub requests : pf.rs.Store

pub data Move : Type 0 where
  starts : (interval_ms : ℕ) → Move
  begins_stop : Move
  joins_stop : Move
  turns : (now : ℕ) → Move
  submits : (draw : ℕ → ℕ) (now : ℕ) (metadata : Option Text) (spec : JobSpec) → Move
  creates_user : (now : ℕ) (username password : Text) (role : UserRole) → Move
  requests_job : (now number : ℕ) (request : JobRequest) → Move
  updates_request : (request_id archive_path : Text) → Move
  reviews :
      (draw : ℕ → ℕ) (now now_job : ℕ) (request_id : Text) (approve : Bool) (comment : Text) → Move
  cancels : (now : ℕ) (job_id : Text) → Move
  registers : (draw now : ℕ → ℕ) (request : RegisterNodeRequest) → Move
  beats : (now : ℕ) (now_at : JobInfo → ℕ) (request : HeartbeatRequest) → Move
  reports_started : (now : ℕ) (job_id node_id : Text) → Move
  reports_completed : (now : ℕ) (job_id node_id : Text) → Move
  reports_failed : (now : ℕ) (job_id node_id : Text) → Move

module _ {pf : Platform} where
  open pf use {kv, rs, js, f, sort}

  abbrev pub with_jobs : JobManager kv.Store → System pf → System pf
  with_jobs job_mgr s = record s { parts = record (s.parts) { job_mgr = job_mgr } }

  abbrev pub with_nodes : NodeRegistry → System pf → System pf
  with_nodes node_registry s = record s {
    parts = record (s.parts) { node_registry = node_registry };
  }

  abbrev pub with_engine : SchedulerEngine → System pf → System pf
  with_engine engine s = record s { engine = engine }

  -- The thread's next move, if there is a thread.
  unfoldable pub turn_thread : ℕ → System pf → System pf
  turn_thread now s = elim s.engine.thread [
    | none ↦ s
    | some p ↦
        let (parts, p') = turn f sort s.engine.running now p s.parts in
        record s { engine = record (s.engine) { thread = some p' }; parts = parts }
  ]

  -- `none` where the process ends by `std::terminate`.
  unfoldable pub step : Move → System pf → Option (System pf)
  step (starts interval_ms) s =
      Option.map (λ engine. with_engine engine s) (start interval_ms s.engine)
  step begins_stop s = some (with_engine (stop_begins s.engine) s)
  step joins_stop s = some (with_engine (stop_joins s.engine) s)
  step (turns now) s = some (turn_thread now s)
  step (submits draw now metadata spec) s =
      some (with_jobs (submit_job_call kv draw now metadata spec s.parts.job_mgr).0 s)
  step (creates_user now username password role) s =
      some (record s { accounts = (create_user kv now username password role s.accounts).0 })
  step (requests_job now number request) s =
      some (record s { requests = (submit_public_request rs js now number request s.requests).0 })
  step (updates_request request_id archive_path) s =
      some (record s { requests = (update_job_request rs js request_id archive_path s.requests).0 })
  step (reviews draw now now_job request_id approve comment) s =
      let r =
        admin_review_request rs js kv draw now now_job request_id approve comment s.requests
          s.parts.job_mgr in
      some (record (with_jobs r.0.1 s) { requests = r.0.0 })
  step (cancels now job_id) s = some (with_jobs (cancel_job_call kv now job_id s.parts.job_mgr).0 s)
  step (registers draw now request) s =
      some (with_nodes (register_node_call draw now request s.parts.node_registry).0 s)
  step (beats now now_at request) s =
      some
        (with_nodes (send_heartbeat now now_at request s.parts.job_mgr s.parts.node_registry).0 s)
  step (reports_started now job_id node_id) s =
      some (with_jobs (report_job_started now job_id node_id s.parts.job_mgr).0 s)
  step (reports_completed now job_id node_id) s =
      some (with_jobs (report_job_completed now job_id node_id s.parts.job_mgr).0 s)
  step (reports_failed now job_id node_id) s =
      some (with_jobs (report_job_failed now job_id node_id s.parts.job_mgr).0 s)

-- The registry has the node.
abbrev pub IsRegistered : Text → NodeRegistry → Type 0
IsRegistered node_id nodes = (node : NodeInfo) × (find node_id nodes ≡ some node)

-- What is asked of a move: a clock later than the epoch, and an agent that reports under an id that
-- the registry has given out.
abbrev pub IsHonest : {pf : Platform} → Move → System pf → Type 0
IsHonest (turns now) s = 0 < now
IsHonest (submits draw now metadata spec) s = 0 < now
IsHonest (reviews draw now now_job request_id approve comment) s = 0 < now_job
IsHonest (cancels now job_id) s = 0 < now
IsHonest (reports_started now job_id node_id) s =
    (0 < now) × IsRegistered node_id s.parts.node_registry
IsHonest (reports_completed now job_id node_id) s =
    (0 < now) × IsRegistered node_id s.parts.node_registry
IsHonest (reports_failed now job_id node_id) s =
    (0 < now) × IsRegistered node_id s.parts.node_registry
IsHonest _ s = Unit

-- The systems that moves lead to.
pub data Reach {pf : Platform} (s : System pf) : System pf → Type 0 where
  here : Reach s s
  next : {t u : System pf} → Reach s t → (m : Move) → IsHonest m t → step m t ≡ some u → Reach s u
