-- ===== src/Agent/Leak.antt =====
-- A job whose launch fails: its thread returns without removing the job from the table.
use certos.Base.{
  ℕ, true, false, List, [], ◌∷◌, none, some, ◌≡◌, ◌⊎◌, inl, inr, refl, sym, ap, ◌∙◌, Text, Dict,
  find, find-assign, text_beq, text_beq_iff, is_some, arith, Option-cases, Bool-cases,
}
use certos.Messages.{JobSpec}
use certos.Agent.Executor.{
  Phase, launched, pipe_fails, fork_fails, Input, Thread, JobExecutor, with_thread, execute_async,
  execution_thread, Move, executes, cancels, moves, advance, step, run,
}
use certos.Agent.Entries.{is_live, moves_others, moves_idle, with_thread_cases}
use certos.Agent.Threads.{Inv}
use certos.Agent.Owners.{reached, reached-Inv}

-- The job is in the table, but no thread of it is live.
record IsStuck (id : Text) (x : JobExecutor) : Type 0 where
  listed : is_some (find id x.running_jobs) ≡ true
  idle : (n : ℕ) (t : Thread) → x.threads n ≡ some t → t.job_id ≡ id → is_live t.phase ≡ false

execute_async-IsStuck :
    (id j : Text) (spec : JobSpec) (x : JobExecutor)
    → IsStuck id x
    → IsStuck id (execute_async j spec x).0
unfolding execute_async
execute_async-IsStuck id j spec x h = elim (Option-cases (find j x.running_jobs)) [
  | inr (pid, e) ↦ rw e h
  | inl e ↦ rw e (record {
    listed = let at = find-assign j id 0 x.running_jobs in let l = h.listed in ground arith;
    idle = λ n t q own. elim (with_thread_cases x.next n _ t x q) [
      | inl (_, same) ↦
          let l = h.listed in
          let k : j ≡ id = ap (λ w. w.job_id) same ∙ own in
          let bad : find id x.running_jobs ≡ none = rw (← k) e in cc
      | inr (_, old) ↦ h.idle n t old own
    ];
  })
]

still_idle :
    (dir id : Text) (spec : JobSpec) (phase : Phase) (input : Input) (jobs : Dict ℕ)
    → is_live phase ≡ false
    → is_live (execution_thread dir id spec phase input jobs).0 ≡ false
unfolding execution_thread
still_idle dir id spec phase input jobs h = ground arith

advance-IsStuck :
    (id : Text) (n : ℕ) (input : Input) (t : Thread) (x : JobExecutor)
    → x.threads n ≡ some t
    → IsStuck id x
    → IsStuck id (advance n input t x).0
unfolding advance
advance-IsStuck id n input t x here h = record { listed = listed; idle = idle }
  where
    stays :
        find id (execution_thread x.work_dir t.job_id t.spec t.phase input x.running_jobs).1
        ≡ find id x.running_jobs
    stays = elim (Bool-cases (text_beq t.job_id id)) [
      | inr differ ↦ moves_others x.work_dir t.job_id t.spec t.phase input x.running_jobs id differ
      | inl same ↦ ap (find id) (
          moves_idle x.work_dir t.job_id t.spec t.phase input x.running_jobs
            (h.idle n t here ((text_beq_iff t.job_id id).0 same)))
    ]

    listed :
        is_some
          (find id (execution_thread x.work_dir t.job_id t.spec t.phase input x.running_jobs).1)
        ≡ true
    listed = ap is_some stays ∙ h.listed

    moved : Thread
    moved = record t {
      phase = (execution_thread x.work_dir t.job_id t.spec t.phase input x.running_jobs).0;
    }

    idle :
        (m : ℕ) (u : Thread)
        → (with_thread n moved x).threads m ≡ some u
        → u.job_id ≡ id
        → is_live u.phase ≡ false
    idle m u q own = elim (with_thread_cases n m moved u x q) [
      | inr (_, old) ↦ h.idle m u old own
      | inl (_, same) ↦ rw (← same) (
          still_idle x.work_dir t.job_id t.spec t.phase input x.running_jobs
            (h.idle n t here (ap (λ w. w.job_id) same ∙ own)))
    ]

step-IsStuck : (id : Text) (m : Move) (x : JobExecutor) → IsStuck id x → IsStuck id (step m x).0
unfolding step
step-IsStuck id (executes j spec) x h = execute_async-IsStuck id j spec x h
step-IsStuck id (cancels j) x h = h
step-IsStuck id (moves n input) x h = elim (Option-cases (x.threads n)) [
  | inl e ↦ rw (e, step) h
  | inr (t, e) ↦ rw (e, step) (advance-IsStuck id n input t x e h)
]

run-IsStuck :
    (id : Text) (ms : List Move) (x : JobExecutor) → IsStuck id x → IsStuck id (run ms x).0
unfolding run
run-IsStuck id [] x h = h
run-IsStuck id (m ∷ ms) x h = run-IsStuck id ms (step m x).0 (step-IsStuck id m x h)

launch_fails :
    (dir id : Text) (spec : JobSpec) (phase : Phase) (input : Input) (jobs : Dict ℕ)
    → phase ≡ launched
    → (input ≡ pipe_fails) ⊎ (input ≡ fork_fails)
    → let r = execution_thread dir id spec phase input jobs in (is_live r.0 ≡ false) × (r.1 ≡ jobs)
unfolding execution_thread
launch_fails dir id spec phase input jobs h fails = ground arith

-- A thread that returns early leaves its job stuck.
step_launch_fails :
    (n : ℕ) (input : Input) (t : Thread) (x : JobExecutor)
    → Inv x
    → x.threads n ≡ some t
    → t.phase ≡ launched
    → (input ≡ pipe_fails) ⊎ (input ≡ fork_fails)
    → IsStuck t.job_id (step (moves n input) x).0
unfolding step advance
step_launch_fails n input t x v here at fails =
    rw (here, step) (record { listed = listed; idle = idle })
  where
    early :
        let r = execution_thread x.work_dir t.job_id t.spec t.phase input x.running_jobs in
        (is_live r.0 ≡ false) × (r.1 ≡ x.running_jobs)
    early = launch_fails x.work_dir t.job_id t.spec t.phase input x.running_jobs at fails

    moved : Thread
    moved = record t {
      phase = (execution_thread x.work_dir t.job_id t.spec t.phase input x.running_jobs).0;
    }

    live : is_live t.phase ≡ true
    live = ap is_live at

    listed :
        is_some (
          find t.job_id
            (execution_thread x.work_dir t.job_id t.spec t.phase input x.running_jobs).1)
        ≡ true
    listed = rw early.1 ((v.entry n t here).0 live)

    idle :
        (m : ℕ) (u : Thread)
        → (with_thread n moved x).threads m ≡ some u
        → u.job_id ≡ t.job_id
        → is_live u.phase ≡ false
    idle m u q own = elim (with_thread_cases n m moved u x q) [
      | inl (_, same) ↦ rw (← same) (early.0)
      | inr (ne, old) ↦ elim (Bool-cases (is_live u.phase)) [
        | inr dead ↦ dead
        | inl alive ↦ absurd (ne (v.unique n m t u here old live alive (sym own)))
      ]
    ]

-- When a thread of a job finds no pipe or cannot fork, the job stays in the table for ever: whatever
-- the daemon calls and the threads do afterwards, the job counts as running, and `execute_async`
-- refuses to run it again.
pub failed_launch_leaks :
    (dir : Text) (ms : List Move) (n : ℕ) (t : Thread) (input : Input)
    → (reached dir ms).threads n ≡ some t
    → t.phase ≡ launched
    → (input ≡ pipe_fails) ⊎ (input ≡ fork_fails)
    → (later : List Move) (spec : JobSpec)
    → let x = (run later (step (moves n input) (reached dir ms)).0).0 in
      (is_some (find t.job_id x.running_jobs) ≡ true) × (execute_async t.job_id spec x ≡ (x, false))
unfolding execute_async
failed_launch_leaks dir ms n t input here at fails later spec =
    let stuck =
      run-IsStuck t.job_id later (step (moves n input) (reached dir ms)).0
        (step_launch_fails n input t (reached dir ms) (reached-Inv dir ms) here at fails) in
    (stuck.listed, rw stuck.listed refl)
