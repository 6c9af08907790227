-- ===== src/Agent/Races.antt =====
-- A job that is fetched a second time before the master has heard of its start.
use certos.Base.{ℕ, true, List, none, some, ◌≡◌, refl, Text, find, ◌∙◌, map, Bool-cases, inl, inr}
use certos.Messages.{JobSpec}
use certos.Agent.Executor.{WaitStatus, JobExecutor, launched, execute_async, moves, run}
use certos.Agent.Entries.{with_thread_at}
use certos.Agent.Life.{life, thread_life}
use certos.Agent.Daemon.{AgentDaemon, fetch, execute, thread_runs}
use certos.Agent.Reports.{thread_runs_lem}
use certos.Agent.Connected.{Master, Readings, connected}

-- A job that is not in the table is started, in a new thread.
started :
    (id : Text) (spec : JobSpec) (x : JobExecutor)
    → find id x.running_jobs ≡ none
    → let r = execute_async id spec x in
      (r.1 ≡ true)
      × (r.0.threads x.next ≡ some (record { job_id = id; spec = spec; phase = launched }))
unfolding execute_async
started id spec x e =
    (rw (e, execute_async) refl, rw (e, execute_async) (with_thread_at x.next _ x))

module _ {S : Type 0} (Double : Type 0) (r : Readings) where
  fetch_keeps :
      (a : AgentDaemon) (m : Master S) → (fetch (connected {S = S} {Double = Double} r) a m).0 ≡ m
  unfolding fetch connected
  fetch_keeps a m = elim (Bool-cases a.running) [ inl e ↦ rw e refl | inr e ↦ rw e refl ]

  -- What is fetched depends on the node and the master alone.
  fetch_again :
      (a : AgentDaemon) (x : JobExecutor) (m : Master S)
      → (fetch (connected {S = S} {Double = Double} r) (record a { executor = x }) m).1
        ≡ (fetch (connected {S = S} {Double = Double} r) a m).1
  unfolding fetch
  fetch_again a x m = refl

-- The polling loop fetches a job and starts it, and before the master has heard of the start it
-- fetches again: it is given the same job. When it comes to start that one, the first thread may have
-- run the whole job, its report and removal included; then the job is started a second time, in a new
-- thread.
pub job_runs_twice :
    {S : Type 0} (Double : Type 0) (r : Readings) (a : AgentDaemon) (m : Master S) (id : Text)
    (spec : JobSpec) (pid : ℕ) (outputs : List Text) (status : WaitStatus)
    → find id a.executor.running_jobs ≡ none
    → (fetch (connected {S = S} {Double = Double} r) a m).1 ≡ some (id, spec)
    → let stub = connected {S = S} {Double = Double} r in
      let (m1, first) = fetch stub a m in
      let a1 = execute first a in
      let (m2, again) = fetch stub a1 m1 in
      let (a3, _, _) = thread_runs stub r.now a.executor.next (life pid outputs status) a1 m2 in
      let a4 = execute again a3 in
      (again ≡ first)
      × (a1.executor.threads a.executor.next
          ≡ some (record { job_id = id; spec = spec; phase = launched }))
      × (a4.executor.threads a3.executor.next
          ≡ some (record { job_id = id; spec = spec; phase = launched }))
unfolding execute
job_runs_twice {S = S} Double r a m id spec pid outputs status fresh found =
    let stub = connected {S = S} {Double = Double} r in
    let x1 = (execute_async id spec a.executor).0 in
    let a1 = record a { executor = x1 } in
    let (_, at) = started id spec a.executor fresh in
    let again : (fetch stub a1 m).1 ≡ some (id, spec) = fetch_again Double r a x1 m ∙ found in
    let ran = thread_runs_lem stub r.now a.executor.next (life pid outputs status) a1 m in
    let (_, gone, _, _) = thread_life a.executor.next _ x1 pid outputs status at refl in
    let x3 = (run (map (moves a.executor.next) (life pid outputs status)) x1).0 in
    rw (found, fetch_keeps Double r a m, again, fetch_keeps Double r a1 m, ran)
      (refl, at, (started id spec x3 gone).1)
