-- ===== src/Agent/Tests.antt =====
-- Examples of jobs on a node.
use certos.Base.{
  ℕ, ◌+◌, ◌<◌, true, false, List, [], ◌∷◌, ◌++◌, none, some, ◌≡◌, ◌≢◌, ◌⊎◌, refl, inl, Text, txt,
  pos, negsuc, Memᴰ, find, map, is_some, arith, text_beq, assign, Each-of_All,
}
use certos.Messages.{
  JobInfo, JobSpec, new_JobSpec, running, assigned, completed, cancelled, status_is,
}
use certos.Master.Jobs.{JobManager, get_job, cancel_job}
use certos.Master.Jobs.Lifecycle.{Inv, JobInv}
use certos.Master.Nodes.{get_node}
use certos.Master.Samples.{map_store, sample_job, sample_node}
use certos.Config.{new_AgentConfig}
use certos.Agent.Executor.{
  JobExecutor, new_JobExecutor, Thread, launched, entered, reading, over, exited, signaled, unknown,
  sigterm, on_started, on_completed, result_of, failure, forks, enters, calls_started, pipe_fails,
  Move, executes, moves, step, run, execute_async, cancel, extraction, child_of, chunk, c_args,
  execution_thread, advance,
}
use certos.Agent.Owners.{reached, Owner, one_thread_per_job, cancel_signals-Owner}
use certos.Agent.Leak.{failed_launch_leaks}
use certos.Agent.Life.{life, collected, thread_life}
use certos.Agent.Client.{report_job_completed, report_job_failed}
use certos.Agent.Daemon.{
  AgentDaemon, new_AgentDaemon, callback, fetch, execute, heartbeat_loop, thread_runs,
  heartbeat_pauses,
}
use certos.Agent.Connected.{Master, Readings, connected}
use certos.Agent.Reports.{reported_ends, killed}
use certos.Agent.Cancelled.{cancelled_job_completes}
use certos.Agent.Races.{job_runs_twice}

abbrev work_dir : Text
work_dir = txt "/w"

abbrev spec : JobSpec
spec = record new_JobSpec { command = txt "ls"; args = txt "-l" ∷ []; archive_path = txt "a.tgz" }

agent_code : Unit {0}
unfolding run step execute_async advance execution_thread find text_beq assign
agent_code = tt

-- A job is launched, forks the process 7 and enters its pid.
abbrev launch : List Move
launch = executes (txt "a") spec ∷ moves 0 (forks 7) ∷ moves 0 enters ∷ []

one_thread_per_job_example : ◌≡◌ {A = ℕ} 0 0
unfolding agent_code
one_thread_per_job_example =
    one_thread_per_job work_dir launch 0 0
      (record { job_id = txt "a"; spec = spec; phase = entered 7 })
      (record { job_id = txt "a"; spec = spec; phase = entered 7 }) refl refl refl refl refl

cancel_signals-Owner_example :
    let x = reached work_dir launch in
    ((pid : ℕ) × (cancel (txt "a") x ≡ (sigterm pid ∷ [], true))
      × (0 < pid)
      × Owner (txt "a") pid x)
    ⊎ ((cancel (txt "a") x ≡ ([], false)) × ((pid : ℕ) → 0 < pid → Owner (txt "a") pid x → ⊥))
cancel_signals-Owner_example = cancel_signals-Owner work_dir launch (txt "a")

failed_launch_leaks_example :
    let x =
      (run
        (moves 0 (forks 9) ∷ [])
        (step (moves 0 pipe_fails) (reached work_dir (executes (txt "a") spec ∷ []))).0).0 in
    (is_some (find (txt "a") x.running_jobs) ≡ true) × (execute_async (txt "a") spec x ≡ (x, false))
unfolding agent_code
failed_launch_leaks_example =
    failed_launch_leaks work_dir (executes (txt "a") spec ∷ []) 0
      (record { job_id = txt "a"; spec = spec; phase = launched }) pipe_fails refl refl (inl refl)
      (moves 0 (forks 9) ∷ []) spec

abbrev first_thread : Thread
first_thread = record { job_id = txt "a"; spec = spec; phase = launched }

thread_life_example :
    let x = reached work_dir (executes (txt "a") spec ∷ []) in
    let outputs = (b'h' ∷ 0 ∷ b'i' ∷ []) ∷ txt "!" ∷ [] in
    let (x', events) = run (map (moves 0) (life 7 outputs (exited 0))) x in
    (events
      ≡ extraction x.work_dir (txt "a") spec
        ++ (child_of 7 x.work_dir (txt "a") spec
            ∷ on_started (txt "a") 7
            ∷ on_completed (result_of (txt "a") (collected outputs) (exited 0))
            ∷ []))
    × (find (txt "a") x'.running_jobs ≡ none)
    × ((j : Text) → txt "a" ≢ j → find j x'.running_jobs ≡ find j x.running_jobs)
    × (x'.threads 0 ≡ some (record first_thread { phase = over }))
unfolding agent_code
thread_life_example =
    thread_life 0 first_thread (reached work_dir (executes (txt "a") spec ∷ [])) 7
      ((b'h' ∷ 0 ∷ b'i' ∷ []) ∷ txt "!" ∷ []) (exited 0) refl refl

-- The output is cut at the NUL of the first piece.
collected_cuts : collected ((b'h' ∷ 0 ∷ b'i' ∷ []) ∷ txt "!" ∷ []) ≡ txt "h!"
unfolding collected chunk
collected_cuts = refl

-- Without an archive, the container is told to bind nothing.
empty_bind :
    c_args [] (record spec { container_image = txt "img" })
    ≡ txt "singularity" ∷ txt "exec" ∷ txt "--bind" ∷ [] ∷ txt "img" ∷ txt "ls" ∷ txt "-l" ∷ []
unfolding c_args
empty_bind = refl

-- An interval of 429496730 seconds, 13 years, makes 4 pauses, 0.4 seconds.
pauses_wrap : heartbeat_pauses (record new_AgentConfig { heartbeat_interval_sec = 429496730 }) ≡ 4
pauses_wrap = refl

abbrev job : JobInfo
job = record (sample_job (txt "a") 8) {
  status = running;
  assigned_node_id = txt "node-1";
  started_at = 9;
}

abbrev waiting : JobInfo
waiting = record (sample_job (txt "a") 8) { status = assigned; assigned_node_id = txt "node-1" }

abbrev master : JobInfo → Master map_store.Store
master info = record {
  jobs = record { jobs = (txt "a", info) ∷ []; db = none };
  nodes = (txt "node-1", sample_node (txt "node-1") (txt "alpha")) ∷ [];
}

abbrev at : ℕ → Readings
at now = record { now = now; now_at = λ i. now; draw = λ i. i; now_id = λ i. now }

abbrev daemon : JobExecutor → AgentDaemon
daemon x = record (new_AgentDaemon new_AgentConfig) {
  node_id = txt "node-1";
  running = true;
  executor = x;
}

job-JobInv : JobInv (txt "a") job
unfolding agent_code status_is
job-JobInv = record {
  named = refl;
  used = tt;
  unplaced = λ e. cc;
  unstarted = λ e. cc;
  unended = λ e. cc;
  started = λ e. omega arith;
  ended = λ e. cc;
  prioritised = refl;
}

master-Inv : Inv (master job).jobs
unfolding agent_code
master-Inv = record {
  distinct = (refl, tt);
  each = Each-of_All JobInv (master job).jobs.jobs (job-JobInv, tt);
}

reported_ends_example :
    let stub = connected {S = map_store.Store} {Double = ℕ} (at 30) in
    let m = master job in
    ((code : ℕ)
      → callback stub 30 (txt "node-1") (on_completed (result_of (txt "a") [] (exited code))) m
        ≡ (report_job_completed stub 30 (txt "node-1") (txt "a") (pos code) [] [] m).0)
    × ((signal : ℕ)
        → callback stub 30
            (txt "node-1")
            (on_completed (result_of (txt "a") [] (signaled signal)))
            m
          ≡ (report_job_completed stub 30 (txt "node-1") (txt "a") (pos (128 + signal)) [] [] m).0)
    × (callback stub 30 (txt "node-1") (on_completed (result_of (txt "a") [] unknown)) m
        ≡ (report_job_failed stub 30 (txt "node-1") (txt "a") [] (negsuc 0) m).0)
    × ((message : Text)
        → callback stub 30 (txt "node-1") (on_completed (failure (txt "a") message)) m
          ≡ (report_job_failed stub 30 (txt "node-1") (txt "a") message (negsuc 0) m).0)
reported_ends_example =
    reported_ends (connected {S = map_store.Store} {Double = ℕ} (at 30)) 30 (txt "node-1") (txt "a")
      [] (master job)

-- The executor whose process writes.
abbrev writing : JobExecutor
writing =
    reached work_dir
      (executes (txt "a") spec ∷ moves 0 (forks 7) ∷ moves 0 enters ∷ moves 0 calls_started ∷ [])

cancelled_job_completes_example :
    let m1 = record (master job) { jobs = (cancel_job 100 (txt "a") (master job).jobs).0 } in
    let (m2, signals) =
      heartbeat_loop {Double = ℕ} (connected (at 103)) 103 50 60 (daemon writing) m1 in
    let (_, m3, _) =
      thread_runs
        (connected {S = map_store.Store} {Double = ℕ} (at 104))
        104
        0
        killed
        (daemon writing)
        m2 in
    ((before : JobInfo) × (get_job (txt "a") m1.jobs ≡ some before) × (before.status ≡ cancelled))
    × Memᴰ (sigterm 7) signals
    × ((after : JobInfo) × (get_job (txt "a") m3.jobs ≡ some after) × (after.status ≡ completed))
unfolding agent_code get_job get_node
cancelled_job_completes_example =
    cancelled_job_completes map_store ℕ 100 (at 103) (at 104) 50 60 (txt "a") 7 0 []
      (record first_thread { phase = reading 7 [] }) (daemon writing) (master job) job
      (sample_node (txt "node-1") (txt "alpha")) master-Inv (omega arith) refl refl refl refl
      (λ i. omega arith) refl refl (omega arith) refl refl refl

job_runs_twice_example :
    let a = daemon (new_JobExecutor work_dir) in
    let stub = connected {S = map_store.Store} {Double = ℕ} (at 50) in
    let (m1, first) = fetch stub a (master waiting) in
    let a1 = execute first a in
    let (m2, again) = fetch stub a1 m1 in
    let (a3, _, _) = thread_runs stub 50 0 (life 7 [] (exited 0)) a1 m2 in
    let a4 = execute again a3 in
    (again ≡ first)
    × (a1.executor.threads 0
        ≡ some (record { job_id = txt "a"; spec = waiting.spec; phase = launched }))
    × (a4.executor.threads a3.executor.next
        ≡ some (record { job_id = txt "a"; spec = waiting.spec; phase = launched }))
unfolding agent_code fetch connected certos.Master.Agents.fetch_job certos.Master.Agents.first_for
    certos.Master.Jobs.list_jobs status_is
job_runs_twice_example =
    job_runs_twice ℕ (at 50) (daemon (new_JobExecutor work_dir)) (master waiting) (txt "a")
      waiting.spec 7 [] (exited 0) refl refl
