-- ===== src/Agent/Daemon.antt =====
-- agent/src/agent_daemon.cpp: the agent's start, one turn of each of its two loops, and what its
-- callbacks send to the master when a thread of the executor moves. Log lines and the pauses between
-- turns are left out.
use certos.Base.{
  ℕ, ◌*◌, ◌%◌, ◌^◌, Bool, true, false, List, [], ◌∷◌, ◌++◌, Option, none, some, Text, txt, ℤ, pos,
  negsuc, if◌then◌else◌, not, ◌||◌, ltb,
}
use certos.Messages.{ResourceSpec, no_resources, JobSpec}
use certos.Config.{AgentConfig}
use certos.Agent.Executor.{
  Event, create_directories, system, child, on_started, on_completed, sigterm, sigkill, JobExecutor,
  new_JobExecutor, get_running_count, execute_async, cancel, Input, moves, step,
}
use certos.Agent.Client.{
  AgentStub, register_node, send_heartbeat, fetch_job, report_job_started, report_job_completed,
  report_job_failed,
}

pub record AgentDaemon : Type 0 where
  pub config : AgentConfig
  pub node_id : Text
  pub running : Bool
  pub executor : JobExecutor

abbrev pub new_AgentDaemon : AgentConfig → AgentDaemon
new_AgentDaemon config = record {
  config = config;
  node_id = [];
  running = false;
  executor = new_JobExecutor config.work_dir;
}

abbrev pub is_not_minus_one : ℤ → Bool
is_not_minus_one (pos n) = true
is_not_minus_one (negsuc n) = ltb 0 n

-- The resources that are registered.
abbrev pub total_resources : AgentConfig → ResourceSpec
total_resources config = record no_resources {
  cpu_cores = if ltb 0 config.cpu_cores then config.cpu_cores else 4;
  ram_mb = if ltb 0 config.ram_mb then config.ram_mb else 8192;
  gpu_count = config.gpu_count;
}

-- "Fake available", in both loops.
abbrev pub avail : ResourceSpec
avail = record no_resources { cpu_cores = 4; ram_mb = 8192 }

-- The number of pauses of 100 ms between heartbeats, a product of 32 bits.
abbrev pub heartbeat_pauses : AgentConfig → ℕ
heartbeat_pauses config = config.heartbeat_interval_sec * 10 % 2 ^ 32

-- The loop over `jobs_to_cancel`.
unfoldable pub cancel_all : List Text → JobExecutor → List Event
unfolding cancel
cancel_all [] x = []
cancel_all (jid ∷ jobs) x = (cancel jid x).0 ++ cancel_all jobs x

-- The loops end when they next look at `running_`.
unfoldable pub stop : AgentDaemon → AgentDaemon
stop a = if a.running then record a { running = false } else a

-- The second half of a turn of the polling loop, the start of the job.
unfoldable pub execute : Option (Text × JobSpec) → AgentDaemon → AgentDaemon
unfolding execute_async
execute none a = a
execute (some (job_id, spec)) a = record a { executor = (execute_async job_id spec a.executor).0 }

module _ {M Double : Type 0} (stub : AgentStub M Double) where
  -- The callbacks. The other events do not concern the master.
  unfoldable pub callback : ℕ → Text → Event → M → M
  callback now node_id (on_started job_id pid) m =
      (report_job_started stub now node_id job_id pid m).0
  callback now node_id (on_completed res) m =
      if res.success || is_not_minus_one res.exit_code
      then (report_job_completed stub now node_id res.job_id res.exit_code res.stdout_data
          res.stderr_data m).0
      else (report_job_failed stub now node_id res.job_id res.error_message res.exit_code m).0
  callback now node_id (create_directories dir) m = m
  callback now node_id (system command) m = m
  callback now node_id (child pid dir args) m = m
  callback now node_id (sigterm pid) m = m
  callback now node_id (sigkill pid) m = m

  abbrev pub callbacks : ℕ → Text → List Event → M → M
  callbacks now node_id [] m = m
  callbacks now node_id (e ∷ es) m = callbacks now node_id es (callback now node_id e m)

  -- `none` where it throws.
  unfoldable pub start : AgentDaemon → M → M × Option AgentDaemon
  start a m =
      if a.running
      then (m, some a)
      else (let (m', id_opt) =
            register_node stub (txt "agent-host") (txt "127.0.0.1") 0 (total_resources a.config)
              m in
          (
            m',
            elim id_opt [
              | none ↦ none
              | some id ↦ some (record a { node_id = id; running = true })
            ],
          ))

  -- One turn of the loop, with the snapshot's percentages.
  unfoldable pub heartbeat_loop : ℕ → Double → Double → AgentDaemon → M → M × List Event
  unfolding get_running_count
  heartbeat_loop now cpu_pct ram_pct a m =
      if not a.running
      then (m, [])
      else (let (m', result) =
            send_heartbeat stub now a.node_id avail (get_running_count a.executor) cpu_pct ram_pct
              m in
          (m', if not result.ok then [] else cancel_all result.jobs_to_cancel a.executor))

  -- The first half of a turn of the polling loop, the call of the master.
  unfoldable pub fetch : AgentDaemon → M → M × Option (Text × JobSpec)
  fetch a m = if not a.running then (m, none) else fetch_job stub a.node_id avail m

  -- A thread of the executor moves, and calls back.
  unfoldable pub thread_moves : ℕ → ℕ → Input → AgentDaemon → M → AgentDaemon × M × List Event
  unfolding step
  thread_moves now n input a m =
      let (x, events) = step (moves n input) a.executor in
      (record a { executor = x }, callbacks now a.node_id events m, events)

  -- Moves of one thread, one after another.
  abbrev pub thread_runs : ℕ → ℕ → List Input → AgentDaemon → M → AgentDaemon × M × List Event
  thread_runs now n [] a m = (a, m, [])
  thread_runs now n (i ∷ is) a m =
      let (a', m', events) = thread_moves now n i a m in
      let (a'', m'', more) = thread_runs now n is a' m' in (a'', m'', events ++ more)
