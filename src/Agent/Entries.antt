-- ===== src/Agent/Entries.antt =====
-- Which threads are live, and what the table of running jobs has for them.
use certos.Base.{
  ℕ, Bool, true, false, Option, none, some, ◌≡◌, ◌≢◌, ◌⊎◌, inl, inr, refl, Text, Dict, find, assign,
  find-assign, find-erase, text_beq, text_beq_iff, text_beq_refl, is_some, arith, nat_beq,
  nat_beq_iff, Bool-cases, some_inj,
}
use certos.Messages.{JobSpec}
use certos.Agent.Executor.{
  Phase, launched, forked, entered, reading, reaped, removed, aborted, over, Input, Thread,
  JobExecutor, with_thread, execution_thread,
}

-- From its start to the removal of its job.
abbrev pub is_live : Phase → Bool
is_live launched = true
is_live (forked pid) = true
is_live (entered pid) = true
is_live (reading pid out) = true
is_live (reaped pid result) = true
is_live (removed result) = false
is_live (aborted result) = false
is_live over = false

-- The pid that the table has for it.
abbrev pub pid_of : Phase → Option ℕ
pid_of launched = none
pid_of (forked pid) = none
pid_of (entered pid) = some pid
pid_of (reading pid out) = some pid
pid_of (reaped pid result) = some pid
pid_of (removed result) = none
pid_of (aborted result) = none
pid_of over = none

-- A move of a thread keeps the entries of other jobs.
pub moves_others :
    (dir id : Text) (spec : JobSpec) (phase : Phase) (input : Input) (jobs : Dict ℕ) (j : Text)
    → text_beq id j ≡ false
    → find j (execution_thread dir id spec phase input jobs).1 ≡ find j jobs
unfolding execution_thread
moves_others dir id spec phase input jobs j ne = grind (arith, find-erase, find-assign)

-- What the table has for a thread that is live.
abbrev pub Entry : Text → Phase → Dict ℕ → Type 0
Entry id phase jobs =
    (is_live phase ≡ true → is_some (find id jobs) ≡ true)
    × ((pid : ℕ) → pid_of phase ≡ some pid → find id jobs ≡ some pid)

pub moves-Entry :
    (dir id : Text) (spec : JobSpec) (phase : Phase) (input : Input) (jobs : Dict ℕ)
    → Entry id phase jobs
    → let r = execution_thread dir id spec phase input jobs in
      (is_live r.0 ≡ true → is_live phase ≡ true) × Entry id r.0 r.1
unfolding execution_thread
moves-Entry dir id spec phase input jobs h = grind (arith, find-erase, find-assign, text_beq_refl)

-- A thread that is not live changes nothing in the table.
pub moves_idle :
    (dir id : Text) (spec : JobSpec) (phase : Phase) (input : Input) (jobs : Dict ℕ)
    → is_live phase ≡ false
    → (execution_thread dir id spec phase input jobs).1 ≡ jobs
unfolding execution_thread
moves_idle dir id spec phase input jobs h = ground arith

pub idle_no_pid : (phase : Phase) → is_live phase ≡ false → pid_of phase ≡ none
idle_no_pid phase h = ground arith

pub Entry-same :
    (id : Text) (phase : Phase) (jobs jobs' : Dict ℕ)
    → find id jobs' ≡ find id jobs
    → Entry id phase jobs
    → Entry id phase jobs'
Entry-same id phase jobs jobs' e h = rw e h

-- A job that is added has no pid yet, and the entries of the others stay.
pub added-Entry :
    (id : Text) (t : Thread) (jobs : Dict ℕ)
    → find id jobs ≡ none
    → Entry t.job_id t.phase jobs
    → Entry t.job_id t.phase (assign id 0 jobs)
added-Entry id t jobs h e =
    let at = find-assign id t.job_id 0 jobs in
    (
      λ l. let k = e.0 l in ground (arith, text_beq_iff id t.job_id),
      λ pid q. let k = e.1 pid q in ground (arith, text_beq_iff id t.job_id),
    )

pub launched-Entry : (id : Text) (jobs : Dict ℕ) → Entry id launched (assign id 0 jobs)
launched-Entry id jobs =
    (λ l. rw (find-assign id id 0 jobs) (rw (text_beq_refl id) refl), λ pid q. cc)

-- The threads after one was put at a number.
pub with_thread_cases :
    (n m : ℕ) (t u : Thread) (x : JobExecutor)
    → (with_thread n t x).threads m ≡ some u
    → ((n ≡ m) × (t ≡ u)) ⊎ ((n ≢ m) × (x.threads m ≡ some u))
with_thread_cases n m t u x e = elim (Bool-cases (nat_beq n m)) [
  | inl same ↦ inl ((nat_beq_iff n m).0 same, some_inj (rw same at e))
  | inr differ ↦ inr ((λ q. let k = (nat_beq_iff n m).1 q in cc), rw differ at e)
]

-- The entries that another thread's move leaves.
pub moved-Entry :
    (dir id : Text) (spec : JobSpec) (phase : Phase) (input : Input) (jobs : Dict ℕ) (u : Thread)
    → (is_live u.phase ≡ true → is_live phase ≡ true → id ≢ u.job_id)
    → Entry u.job_id u.phase jobs
    → Entry u.job_id u.phase (execution_thread dir id spec phase input jobs).1
moved-Entry dir id spec phase input jobs u apart h = elim (Bool-cases (is_live u.phase)) [
  | inr dead ↦ ((λ l. cc), λ pid q. let no_pid = idle_no_pid u.phase dead in cc)
  | inl live ↦ elim (Bool-cases (is_live phase)) [
    | inr idle ↦ rw (moves_idle dir id spec phase input jobs idle) h
    | inl moving ↦ elim (Bool-cases (text_beq id u.job_id)) [
      | inl same ↦ absurd (apart live moving ((text_beq_iff id u.job_id).0 same))
      | inr differ ↦ rw (moves_others dir id spec phase input jobs u.job_id differ) h
    ]
  ]
]

pub with_thread_at : (n : ℕ) (t : Thread) (x : JobExecutor) → (with_thread n t x).threads n ≡ some t
with_thread_at n t x = rw ((nat_beq_iff n n).1 refl) refl
