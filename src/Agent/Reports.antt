-- ===== src/Agent/Reports.antt =====
-- What the master is told of a job that ended.
use mathlib.Core.List.Memᴰ.{append_right}
use certos.Base.{
  ℕ, ◌+◌, ◌<◌, true, List, [], ◌∷◌, ◌++◌, some, ◌≡◌, refl, inl, inr, Text, pos, negsuc, Memᴰ, sym,
  ap, ◌∙◌, find, arith, ltb, nat_beq, map, Bool-cases,
}
use certos.Agent.Executor.{
  exited, signaled, unknown, result_of, failure, Event, on_completed, sigterm, JobExecutor, Thread,
  reading, Input, cancel, moves, run, step,
}
use certos.Agent.Life.{read_all, collected, drive, drive-read_all, run-drive}
use certos.Agent.Client.{AgentStub, report_job_completed, report_job_failed}
use certos.Agent.Daemon.{AgentDaemon, callback, callbacks, cancel_all, thread_moves, thread_runs}

module _ {M Double : Type 0} (stub : AgentStub M Double) where
  -- What the master is told, by how the job ended. Of a process that exited, with any code, or that a
  -- signal killed, the agent reports that the job is completed; it reports a failure only of a process
  -- whose state is neither, or of a launch that failed.
  pub reported_ends :
      (now : ℕ) (node id out : Text) (m : M)
      → ((code : ℕ)
          → callback stub now node (on_completed (result_of id out (exited code))) m
            ≡ (report_job_completed stub now node id (pos code) out [] m).0)
        × ((signal : ℕ)
            → callback stub now node (on_completed (result_of id out (signaled signal))) m
              ≡ (report_job_completed stub now node id (pos (128 + signal)) out [] m).0)
        × (callback stub now node (on_completed (result_of id out unknown)) m
            ≡ (report_job_failed stub now node id [] (negsuc 0) m).0)
        × ((message : Text)
            → callback stub now node (on_completed (failure id message)) m
              ≡ (report_job_failed stub now node id message (negsuc 0) m).0)
  unfolding callback result_of
  reported_ends now node id out m = (
    λ code. elim (Bool-cases (nat_beq code 0)) [ inl e ↦ rw e refl | inr e ↦ rw e refl ],
    λ signal. refl,
    refl,
    λ message. refl,
  )

signal_sent :
    (id : Text) (x : JobExecutor) (pid : ℕ)
    → find id x.running_jobs ≡ some pid
    → 0 < pid
    → (cancel id x).0 ≡ sigterm pid ∷ []
unfolding cancel
signal_sent id x pid e h = let t : ltb 0 pid ≡ true = ground arith in rw (e, t, cancel) refl

pub mem-cancel_all :
    (id : Text) (x : JobExecutor) (pid : ℕ) (jobs : List Text)
    → find id x.running_jobs ≡ some pid
    → 0 < pid
    → Memᴰ id jobs
    → Memᴰ (sigterm pid) (cancel_all jobs x)
unfolding cancel_all
mem-cancel_all id x pid [] e h m = elim m [ ]
mem-cancel_all id x pid (j ∷ jobs) e h m = elim m [
  | Memᴰ.head same ↦ rw (← same) (rw (signal_sent id x pid e h) (Memᴰ.head refl))
  | Memᴰ.tail m' ↦ append_right (cancel j x).0 (mem-cancel_all id x pid jobs e h m')
]

module _ {M Double : Type 0} (stub : AgentStub M Double) where
  callbacks-append :
      (now : ℕ) (node : Text) (es fs : List Event) (m : M)
      → callbacks stub now node (es ++ fs) m
        ≡ callbacks stub now node fs (callbacks stub now node es m)
  callbacks-append now node [] fs m = refl
  callbacks-append now node (e ∷ es) fs m =
      callbacks-append now node es fs (callback stub now node e m)

  -- The moves of one thread are those of its executor, and what they call back.
  pub thread_runs_lem :
      (now n : ℕ) (is : List Input) (a : AgentDaemon) (m : M)
      → let (x, events) = run (map (moves n) is) a.executor in
        thread_runs stub now n is a m
        ≡ (record a { executor = x }, callbacks stub now a.node_id events m, events)
  unfolding run step thread_moves
  thread_runs_lem now n [] a m = refl
  thread_runs_lem now n (i ∷ is) a m =
      let (x, es) = step (moves n i) a.executor in
      let a' = record a { executor = x } in
      let (x', more) = run (map (moves n) is) x in
      ap (λ r. (r.0, r.1, es ++ r.2))
        (thread_runs_lem now n is a' (callbacks stub now a.node_id es m))
      ∙ ap (λ m'. (record a { executor = x' }, m', es ++ more))
          (sym (callbacks-append now a.node_id es more m))

-- The inputs of a thread whose process SIGTERM, the signal 15, kills, up to its end.
abbrev pub killed : List Input
killed = read_all [] (signaled 15)

pub killed_events :
    (n pid : ℕ) (out : Text) (t : Thread) (x : JobExecutor)
    → x.threads n ≡ some t
    → t.phase ≡ reading pid out
    → (run (map (moves n) killed) x).1
      ≡ on_completed (result_of t.job_id (out ++ collected []) (signaled 15)) ∷ []
killed_events n pid out t x here at =
    (run-drive killed n t x here).1
    ∙ (ap (λ phase. (drive x.work_dir t.job_id t.spec killed phase x.running_jobs).2) at
        ∙ ap (λ r. r.2)
            (drive-read_all x.work_dir t.job_id t.spec [] (signaled 15) pid out x.running_jobs))
