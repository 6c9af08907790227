-- ===== src/Agent/Threads.antt =====
-- One thread for each job: what holds of the executor after any calls and moves.
use certos.Base.{
  ℕ, suc, ◌<◌, true, false, List, [], ◌∷◌, none, some, ◌≡◌, ◌≢◌, inl, inr, sym, ap, ◌∙◌, Text, Dict,
  find, assign, arith, Option-cases, Bool-cases,
}
use certos.Messages.{JobSpec}
use certos.Agent.Executor.{
  Phase, launched, Input, Thread, Event, JobExecutor, new_JobExecutor, with_thread, execute_async,
  execution_thread, Move, executes, cancels, moves, advance, step, run,
}
use certos.Agent.Entries.{
  is_live, Entry, moves-Entry, added-Entry, launched-Entry, with_thread_cases, moved-Entry,
}

-- What holds of every executor that is reached: a live thread's job is in the table, with its pid once
-- that is entered; no job has two live threads; and threads are numbered in the order of their start.
pub record Inv (x : JobExecutor) : Type 0 where
  pub entry : (n : ℕ) (t : Thread) → x.threads n ≡ some t → Entry t.job_id t.phase x.running_jobs
  pub unique :
      (n m : ℕ) (t u : Thread)
      → x.threads n ≡ some t
      → x.threads m ≡ some u
      → is_live t.phase ≡ true
      → is_live u.phase ≡ true
      → t.job_id ≡ u.job_id
      → n ≡ m
  pub fresh : (n : ℕ) (t : Thread) → x.threads n ≡ some t → n < x.next

pub new_JobExecutor-Inv : (dir : Text) → Inv (new_JobExecutor dir)
new_JobExecutor-Inv dir = record {
  entry = λ n t e. cc;
  unique = λ n m t u e f a b s. cc;
  fresh = λ n t e. cc;
}

-- A job that is not in the table has no live thread.
unlisted :
    (x : JobExecutor) (n : ℕ) (t : Thread)
    → Inv x
    → x.threads n ≡ some t
    → find t.job_id x.running_jobs ≡ none
    → is_live t.phase ≡ false
unlisted x n t v e h = elim (Bool-cases (is_live t.phase)) [
  | inl l ↦ let listed = (v.entry n t e).0 l in cc
  | inr l ↦ l
]

execute_async-Inv :
    (id : Text) (spec : JobSpec) (x : JobExecutor) → Inv x → Inv (execute_async id spec x).0
unfolding execute_async
execute_async-Inv id spec x v = elim (Option-cases (find id x.running_jobs)) [
  | inr (pid, e) ↦ rw e v
  | inl e ↦ rw e (record { entry = entry e; unique = unique e; fresh = fresh })
]
  where
    new : Thread
    new = record { job_id = id; spec = spec; phase = launched }

    entry :
        find id x.running_jobs ≡ none
        → (n : ℕ) (t : Thread) → (with_thread x.next new x).threads n ≡ some t
        → Entry t.job_id t.phase (assign id 0 x.running_jobs)
    entry e n t q = elim (with_thread_cases x.next n new t x q) [
      | inl (_, same) ↦ rw (← same) (launched-Entry id x.running_jobs)
      | inr (_, old) ↦ added-Entry id t x.running_jobs e (v.entry n t old)
    ]

    old_apart :
        find id x.running_jobs ≡ none
        → (n : ℕ) (t : Thread) → x.threads n ≡ some t
        → is_live t.phase ≡ true
        → t.job_id ≢ id
    old_apart e n t q l same = let dead = unlisted x n t v q (rw same e) in cc

    unique :
        find id x.running_jobs ≡ none
        → (n m : ℕ) (t u : Thread) → (with_thread x.next new x).threads n ≡ some t
        → (with_thread x.next new x).threads m ≡ some u
        → is_live t.phase ≡ true
        → is_live u.phase ≡ true
        → t.job_id ≡ u.job_id
        → n ≡ m
    unique e n m t u p q a b same = elim (with_thread_cases x.next n new t x p) [
      | inl (n_new, t_new) ↦ elim (with_thread_cases x.next m new u x q) [
        | inl (m_new, _) ↦ sym n_new ∙ m_new
        | inr (_, old) ↦ absurd (old_apart e m u old b (sym (ap (λ t. t.job_id) t_new ∙ same)))
      ]
      | inr (_, old) ↦ elim (with_thread_cases x.next m new u x q) [
        | inl (_, u_new) ↦ absurd (old_apart e n t old a (same ∙ sym (ap (λ t. t.job_id) u_new)))
        | inr (_, old') ↦ v.unique n m t u old old' a b same
      ]
    ]

    fresh : (n : ℕ) (t : Thread) → (with_thread x.next new x).threads n ≡ some t → n < suc x.next
    fresh n t q = elim (with_thread_cases x.next n new t x q) [
      | inl (e, _) ↦ omega arith
      | inr (_, old) ↦ let k = v.fresh n t old in omega arith
    ]

advance-Inv :
    (n : ℕ) (input : Input) (t : Thread) (x : JobExecutor)
    → x.threads n ≡ some t
    → Inv x
    → Inv (advance n input t x).0
unfolding advance
advance-Inv n input t x at v = record { entry = entry; unique = unique; fresh = fresh }
  where
    r : Phase × Dict ℕ × List Event
    r = execution_thread x.work_dir t.job_id t.spec t.phase input x.running_jobs

    moved : Thread
    moved = record t { phase = r.0 }

    own : (is_live r.0 ≡ true → is_live t.phase ≡ true) × Entry t.job_id r.0 r.1
    own = moves-Entry x.work_dir t.job_id t.spec t.phase input x.running_jobs (v.entry n t at)

    entry :
        (m : ℕ) (u : Thread)
        → (with_thread n moved x).threads m ≡ some u
        → Entry u.job_id u.phase r.1
    entry m u q = elim (with_thread_cases n m moved u x q) [
      | inl (_, same) ↦ rw (← same) (own.1)
      | inr (ne, old) ↦
          moved-Entry x.work_dir t.job_id t.spec t.phase input x.running_jobs u
            (λ live moving same. ne (v.unique n m t u at old moving live same)) (v.entry m u old)
    ]

    unique :
        (i j : ℕ) (u w : Thread)
        → (with_thread n moved x).threads i ≡ some u
        → (with_thread n moved x).threads j ≡ some w
        → is_live u.phase ≡ true
        → is_live w.phase ≡ true
        → u.job_id ≡ w.job_id
        → i ≡ j
    unique i j u w p q a b same = elim (with_thread_cases n i moved u x p) [
      | inl (i_n, u_moved) ↦ elim (with_thread_cases n j moved w x q) [
        | inl (j_n, _) ↦ sym i_n ∙ j_n
        | inr (_, old) ↦
            sym i_n
            ∙ v.unique n j t w at old (own.0 (rw (← u_moved) at a)) b
                (ap (λ t. t.job_id) u_moved ∙ same)
      ]
      | inr (_, old) ↦ elim (with_thread_cases n j moved w x q) [
        | inl (j_n, w_moved) ↦
            v.unique i n u t old at a (own.0 (rw (← w_moved) at b))
              (same ∙ sym (ap (λ t. t.job_id) w_moved))
            ∙ j_n
        | inr (_, old') ↦ v.unique i j u w old old' a b same
      ]
    ]

    fresh : (m : ℕ) (u : Thread) → (with_thread n moved x).threads m ≡ some u → m < x.next
    fresh m u q = elim (with_thread_cases n m moved u x q) [
      | inl (e, _) ↦ let k = v.fresh n t at in omega arith
      | inr (_, old) ↦ v.fresh m u old
    ]

pub step-Inv : (m : Move) (x : JobExecutor) → Inv x → Inv (step m x).0
unfolding step
step-Inv (executes id spec) x v = execute_async-Inv id spec x v
step-Inv (cancels id) x v = v
step-Inv (moves n input) x v = elim (Option-cases (x.threads n)) [
  | inl e ↦ rw (e, step) v
  | inr (t, e) ↦ rw (e, step) (advance-Inv n input t x e v)
]

pub run-Inv : (ms : List Move) (x : JobExecutor) → Inv x → Inv (run ms x).0
unfolding run
run-Inv [] x v = v
run-Inv (m ∷ ms) x v = run-Inv ms (step m x).0 (step-Inv m x v)
