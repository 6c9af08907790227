-- ===== src/Agent/Cancelled.antt =====
-- What becomes of a cancellation, from the master to the process and back.

use certos.Base.{
  ℕ, ◌-◌, ◌<◌, true, [], ◌++◌, some, ◌≡◌, refl, inl, inr, Text, Memᴰ, sym, ap, ◌∙◌, find,
  text_beq_refl, some_inj,
}
use certos.Messages.{JobInfo, running, completed, cancelled, NodeInfo}
use certos.Master.KeyValue.{KvStore}
use certos.Master.Jobs.{JobManager, get_job, cancel_job, set_status}
use certos.Master.Jobs.Updates.{
  cancel_job_cases, get_job-update_job_status, set_status_status, cancelled_info,
}
use certos.Master.Jobs.Lifecycle.{Inv}
use certos.Master.Nodes.{get_node}
use certos.Master.Agents.{HeartbeatRequest, report_job}
use certos.Master.Agents.Cancellation.{cancel_reaches_agent, running_is_not_over}
use certos.Agent.Executor.{
  signaled, result_of, on_completed, sigterm, Thread, reading, get_running_count,
}
use certos.Agent.Life.{collected}
use certos.Agent.Daemon.{AgentDaemon, callback, heartbeat_loop, thread_runs, avail}
use certos.Agent.Connected.{Master, Readings, connected}
use certos.Agent.Reports.{mem-cancel_all, killed, killed_events, thread_runs_lem}

module _ (kv : KvStore) (Double : Type 0) where
  open kv use {Store}

  -- A report of completion from the agent is entered, whatever the job's status was.
  completion_entered :
      (r : Readings) (node id : Text) (signal : ℕ) (out : Text) (m : Master Store) (info : JobInfo)
      → get_job id m.jobs ≡ some info
      → let m' =
          callback
            (connected {S = Store} {Double = Double} r)
            r.now
            node
            (on_completed (result_of id out (signaled signal)))
            m in
        (after : JobInfo) × (get_job id m'.jobs ≡ some after) × (after.status ≡ completed)
  unfolding callback connected result_of report_job
  completion_entered r node id signal out m info found =
      elim (get_job-update_job_status r.now id completed node id m.jobs) [
        | inl (_, missing, _) ↦ cc
        | inr (info', _, _, updated) ↦ (
          set_status r.now completed node info',
          rw (text_beq_refl id) at updated,
          set_status_status r.now completed node info',
        )
      ]

  cancelled_found :
      (now : ℕ) (id : Text) (s : JobManager Store) (info : JobInfo)
      → get_job id s ≡ some info
      → info.status ≡ running
      → (after : JobInfo) × (get_job id (cancel_job now id s).0 ≡ some after)
        × (after.status ≡ cancelled)
  cancelled_found now id s info found runs = elim (cancel_job_cases now id id s) [
    | inl (_, _, inl missing) ↦ cc
    | inl (_, _, inr (info', same, over)) ↦ absurd (
        running_is_not_over kv info' (ap (λ i. i.status) (some_inj (sym same ∙ found)) ∙ runs) over)
    | inr (info', _, _, _, changed) ↦
        (cancelled_info now info', rw (text_beq_refl id) at changed, refl)
  ]

  -- The heartbeat after a cancellation signals the job's process.
  heartbeat_signals :
      (now : ℕ) (r : Readings) (cpu ram : Double) (id : Text) (pid : ℕ) (a : AgentDaemon)
      (m : Master Store) (info : JobInfo) (node : NodeInfo)
      → Inv m.jobs
      → 0 < now
      → get_job id m.jobs ≡ some info
      → info.status ≡ running
      → info.assigned_node_id ≡ a.node_id
      → get_node a.node_id m.nodes ≡ some node
      → ((i : JobInfo) → r.now_at i - now < 60)
      → a.running ≡ true
      → find id a.executor.running_jobs ≡ some pid
      → 0 < pid
      → let m1 = record m { jobs = (cancel_job now id m.jobs).0 } in
        let b = heartbeat_loop (connected {S = Store} r) r.now cpu ram a m1 in
        (b.0.jobs ≡ m1.jobs) × Memᴰ (sigterm pid) b.1
  unfolding heartbeat_loop connected
  heartbeat_signals now r cpu ram id pid a m info node v h found runs at registered soon on entry
        p =
      let beat : HeartbeatRequest = record {
        node_id = a.node_id;
        available_resources = avail;
        running_jobs = get_running_count a.executor;
      } in
      let (resp, answered, acknowledged, listed) =
        cancel_reaches_agent kv now r.now r.now_at id beat m.jobs m.nodes info node v h found runs
          at registered soon in
      (
        rw on refl,
        rw (on, answered, acknowledged)
            (mem-cancel_all id a.executor pid resp.jobs_to_cancel entry p listed),
      )

  -- A cancellation ends as a completion. A job runs on a registered node, whose agent has its process;
  -- it is cancelled at the master, and the node's next heartbeat comes less than 60 seconds later by
  -- every reading of the clock. Then that heartbeat sends the process SIGTERM, and when the signal
  -- kills it, the agent's report makes the master give the job, which it had as cancelled, the status
  -- completed. This is of a table of jobs that meets the invariant.
  pub cancelled_job_completes :
      (now : ℕ) (r r' : Readings) (cpu ram : Double) (id : Text) (pid n : ℕ) (out : Text)
      (t : Thread) (a : AgentDaemon) (m : Master Store) (info : JobInfo) (node : NodeInfo)
      → Inv m.jobs
      → 0 < now
      → get_job id m.jobs ≡ some info
      → info.status ≡ running
      → info.assigned_node_id ≡ a.node_id
      → get_node a.node_id m.nodes ≡ some node
      → ((i : JobInfo) → r.now_at i - now < 60)
      → a.running ≡ true
      → find id a.executor.running_jobs ≡ some pid
      → 0 < pid
      → a.executor.threads n ≡ some t
      → t.job_id ≡ id
      → t.phase ≡ reading pid out
      → let m1 = record m { jobs = (cancel_job now id m.jobs).0 } in
        let (m2, signals) = heartbeat_loop (connected {S = Store} r) r.now cpu ram a m1 in
        let (_, m3, _) =
          thread_runs (connected {S = Store} {Double = Double} r') r'.now n killed a m2 in
        ((before : JobInfo) × (get_job id m1.jobs ≡ some before) × (before.status ≡ cancelled))
        × Memᴰ (sigterm pid) signals
        × ((after : JobInfo) × (get_job id m3.jobs ≡ some after) × (after.status ≡ completed))
  cancelled_job_completes now r r' cpu ram id pid n out t a m info node v h found runs at registered
        soon on entry p here own reads =
      let m1 = record m { jobs = (cancel_job now id m.jobs).0 } in
      let stub = connected {S = Store} {Double = Double} r' in
      let (kept, signalled) =
        heartbeat_signals now r cpu ram id pid a m info node v h found runs at registered soon on
          entry p in
      let m2 = (heartbeat_loop (connected {S = Store} r) r.now cpu ram a m1).0 in
      let (before, cancelled_at, cancels) = cancelled_found now id m.jobs info found runs in
      let found2 : get_job id m2.jobs ≡ some before = rw kept cancelled_at in
      let ended = killed_events n pid out t a.executor here reads in
      let runs3 = thread_runs_lem stub r'.now n killed a m2 in
      (
        (before, cancelled_at, cancels),
        signalled,
        rw (runs3, ended, own)
            (completion_entered r' a.node_id id 15 (out ++ collected []) m2 before found2),
      )
