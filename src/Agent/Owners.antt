-- ===== src/Agent/Owners.antt =====
-- Which process `cancel` signals, and that no job has two threads, after any calls and moves.
use certos.Base.{
  ℕ, ◌<◌, true, false, List, [], ◌∷◌, some, ◌≡◌, ◌≢◌, ◌⊎◌, inl, inr, refl, sym, ap, ◌∙◌, Text, Dict,
  find, find-assign, find-erase, text_beq, text_beq_iff, text_beq_refl, arith, nat_beq, nat_beq_iff,
  Option-cases, Bool-cases, some_inj, ltb,
}
use certos.Messages.{JobSpec}
use certos.Agent.Executor.{
  Phase, Input, Thread, sigterm, JobExecutor, new_JobExecutor, with_thread, execute_async, cancel,
  execution_thread, Move, executes, cancels, moves, advance, step, run,
}
use certos.Agent.Entries.{is_live, pid_of, Entry, moves_others, with_thread_at}
use certos.Agent.Threads.{Inv, new_JobExecutor-Inv, step-Inv, run-Inv}

-- A thread of the job has entered the pid, and has not removed the job yet.
abbrev pub Owner : Text → ℕ → JobExecutor → Type 0
Owner id pid x =
    (n : ℕ) × (t : Thread) × (x.threads n ≡ some t) × (t.job_id ≡ id) × (pid_of t.phase ≡ some pid)

-- Every pid of the table is owned. A job without a pid has 0.
unfoldable Owned : JobExecutor → Type 0
Owned x = (id : Text) (pid : ℕ) → find id x.running_jobs ≡ some pid → 0 < pid → Owner id pid x

-- The pid that a move leaves is the thread's, or was there and is not the thread's.
moved_pid :
    (dir id : Text) (spec : JobSpec) (phase : Phase) (input : Input) (jobs : Dict ℕ) (pid : ℕ)
    → Entry id phase jobs
    → let r = execution_thread dir id spec phase input jobs in
      find id r.1 ≡ some pid
      → (pid_of r.0 ≡ some pid) ⊎ ((find id jobs ≡ some pid) × (pid_of phase ≢ some pid))
unfolding execution_thread
moved_pid dir id spec phase input jobs pid e = grind (arith, find-erase, find-assign, text_beq_refl)

-- A thread other than the one that is put at a number stays.
with_thread_keeps :
    (n m : ℕ) (t u : Thread) (x : JobExecutor)
    → n ≢ m
    → x.threads m ≡ some u
    → (with_thread n t x).threads m ≡ some u
with_thread_keeps n m t u x ne h = elim (Bool-cases (nat_beq n m)) [
  | inl same ↦ absurd (ne ((nat_beq_iff n m).0 same))
  | inr differ ↦ rw differ h
]

execute_async-Owned :
    (id : Text) (spec : JobSpec) (x : JobExecutor)
    → Inv x
    → Owned x
    → Owned (execute_async id spec x).0
unfolding execute_async Owned
execute_async-Owned id spec x v h = elim (Option-cases (find id x.running_jobs)) [
  | inr (pid, e) ↦ rw e h
  | inl e ↦ rw e (λ j pid q pos.
      let at = find-assign id j 0 x.running_jobs in
      let (n, t, here, own, has) = h j pid (ground arith) pos in
      let young = v.fresh n t here in
      (n, t, with_thread_keeps x.next n _ t x (λ s. omega arith) here, own, has))
]

advance-Owned :
    (n : ℕ) (input : Input) (t : Thread) (x : JobExecutor)
    → x.threads n ≡ some t
    → Inv x
    → Owned x
    → Owned (advance n input t x).0
unfolding advance Owned
advance-Owned n input t x here v h id pid q pos = elim (Bool-cases (text_beq t.job_id id)) [
  | inr differ ↦
      stays
        (rw (moves_others x.work_dir t.job_id t.spec t.phase input x.running_jobs id differ) at q)
        (λ s _. let same = (text_beq_iff t.job_id id).1 s in cc)
  | inl same ↦ own ((text_beq_iff t.job_id id).0 same)
]
  where
    moved : Thread
    moved = record t {
      phase = (execution_thread x.work_dir t.job_id t.spec t.phase input x.running_jobs).0;
    }

    stays :
        find id x.running_jobs ≡ some pid
        → (t.job_id ≡ id → pid_of t.phase ≡ some pid → ⊥)
        → (m : ℕ) × (u : Thread) × ((with_thread n moved x).threads m ≡ some u)
          × (u.job_id ≡ id)
          × (pid_of u.phase ≡ some pid)
    stays old apart =
        let (m, u, there, owns, has) = h id pid old pos in
        let ne : n ≢ m = λ s.
          let e : t ≡ u = some_inj (sym here ∙ (ap x.threads s ∙ there)) in
          apart (ap (λ w. w.job_id) e ∙ owns) (ap (λ w. pid_of w.phase) e ∙ has) in
        (m, u, with_thread_keeps n m moved u x ne there, owns, has)

    own :
        t.job_id ≡ id
        → (m : ℕ) × (u : Thread) × ((with_thread n moved x).threads m ≡ some u)
          × (u.job_id ≡ id)
          × (pid_of u.phase ≡ some pid)
    own s =
        elim (moved_pid x.work_dir t.job_id t.spec t.phase input x.running_jobs pid
          (v.entry n t here) (rw (← s) at q)) [
            | inl has ↦ (n, moved, with_thread_at n moved x, s, has)
            | inr (old, lacks) ↦ stays (rw s at old) (λ _ has. lacks has)
          ]

step-Owned : (m : Move) (x : JobExecutor) → Inv x → Owned x → Owned (step m x).0
unfolding step
step-Owned (executes id spec) x v h = execute_async-Owned id spec x v h
step-Owned (cancels id) x v h = h
step-Owned (moves n input) x v h = elim (Option-cases (x.threads n)) [
  | inl e ↦ rw (e, step) h
  | inr (t, e) ↦ rw (e, step) (advance-Owned n input t x e v h)
]

run-Owned : (ms : List Move) (x : JobExecutor) → Inv x → Owned x → Owned (run ms x).0
unfolding run
run-Owned [] x v h = h
run-Owned (m ∷ ms) x v h = run-Owned ms (step m x).0 (step-Inv m x v) (step-Owned m x v h)

new_JobExecutor-Owned : (dir : Text) → Owned (new_JobExecutor dir)
unfolding Owned find
new_JobExecutor-Owned dir id pid q pos = absurd cc

abbrev pub reached : Text → List Move → JobExecutor
reached dir ms = (run ms (new_JobExecutor dir)).0

pub reached-Inv : (dir : Text) (ms : List Move) → Inv (reached dir ms)
reached-Inv dir ms = run-Inv ms (new_JobExecutor dir) (new_JobExecutor-Inv dir)

-- Whatever the calls of the daemon and the moves of the threads so far, in any order, no two threads
-- of one job are live: two numbers of live threads with one job id are the same number.
pub one_thread_per_job :
    (dir : Text) (ms : List Move) (n m : ℕ) (t u : Thread)
    → (reached dir ms).threads n ≡ some t
    → (reached dir ms).threads m ≡ some u
    → is_live t.phase ≡ true
    → is_live u.phase ≡ true
    → t.job_id ≡ u.job_id
    → n ≡ m
one_thread_per_job dir ms = (reached-Inv dir ms).unique

-- Whatever happened before, `cancel` of a job either sends one SIGTERM, to a positive pid of a thread
-- of that very job which has not removed the job yet, and answers true; or it sends nothing and
-- answers false, and then no thread of the job has entered a positive pid. In particular a cancellation
-- that comes before the pid is entered has no effect.
pub cancel_signals-Owner :
    (dir : Text) (ms : List Move) (id : Text)
    → let x = reached dir ms in
      ((pid : ℕ) × (cancel id x ≡ (sigterm pid ∷ [], true)) × (0 < pid) × Owner id pid x)
      ⊎ ((cancel id x ≡ ([], false)) × ((pid : ℕ) → 0 < pid → Owner id pid x → ⊥))
unfolding cancel Owned
cancel_signals-Owner dir ms id = elim (Option-cases (find id x.running_jobs)) [
  | inl e ↦ inr (rw (e, cancel) refl, λ pid pos p. let q = has_entry pid p in cc)
  | inr (pid, e) ↦ elim (Bool-cases (ltb 0 pid)) [
    | inl pos ↦ inl (pid, rw (e, pos, cancel) refl, ground arith, owned pid e (ground arith))
    | inr zero ↦ inr (
      rw (e, zero, cancel) refl,
      λ pid' pos p.
          let q : pid ≡ pid' = some_inj (sym e ∙ has_entry pid' p) in absurd (ground arith),
    )
  ]
]
  where
    x : JobExecutor
    x = reached dir ms

    owned : (pid : ℕ) → find id x.running_jobs ≡ some pid → 0 < pid → Owner id pid x
    owned =
        run-Owned ms (new_JobExecutor dir) (new_JobExecutor-Inv dir) (new_JobExecutor-Owned dir) id

    has_entry : (pid : ℕ) → Owner id pid x → find id x.running_jobs ≡ some pid
    has_entry pid (n, t, here, own, has) = rw own at ((reached-Inv dir ms).entry n t here).1 pid has
