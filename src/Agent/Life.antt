-- ===== src/Agent/Life.antt =====
-- The whole life of one thread that could launch its job.
use certos.Base.{
  ℕ, List, [], ◌∷◌, ◌++◌, none, some, ◌≡◌, refl, ◌≢◌, ap, ◌∙◌, Text, Dict, find, erase, find-assign,
  find-erase, append-nil, append_assoc, map, text_beq, text_beq_iff, text_beq_refl, Bool-cases, inl,
  inr, arith,
}
use certos.Messages.{JobSpec}
use certos.Agent.Entries.{with_thread_at}
use certos.Agent.Executor.{
  Phase, launched, forks, enters, calls_started, reading, reads, ends, removes, calls_completed,
  over, WaitStatus, Input, Thread, Event, on_started, on_completed, JobExecutor, execution_thread,
  moves, advance, chunk, result_of, extraction, child_of, enter_pid, step, run,
}

-- The inputs of a process that writes `outputs`, ends, and is removed.
unfoldable pub read_all : List Text → WaitStatus → List Input
read_all [] status = ends status ∷ removes ∷ calls_completed ∷ []
read_all (bytes ∷ outputs) status = reads bytes ∷ read_all outputs status

-- The inputs of a launch that succeeds.
abbrev pub life : ℕ → List Text → WaitStatus → List Input
life pid outputs status = forks pid ∷ enters ∷ calls_started ∷ read_all outputs status

-- What `stdout_data` collects: each piece of output up to its first NUL.
unfoldable pub collected : List Text → Text
collected [] = []
collected (bytes ∷ outputs) = chunk bytes ++ collected outputs

-- The moves of one thread, without the executor.
module _ (dir id : Text) (spec : JobSpec) where
  unfoldable pub drive : List Input → Phase → Dict ℕ → Phase × Dict ℕ × List Event
  drive [] phase jobs = (phase, jobs, [])
  drive (i ∷ is) phase jobs =
      let (phase', jobs', events) = execution_thread dir id spec phase i jobs in
      let (phase'', jobs'', more) = drive is phase' jobs' in (phase'', jobs'', events ++ more)

  pub drive-read_all :
      (outputs : List Text) (status : WaitStatus) (pid : ℕ) (out : Text) (jobs : Dict ℕ)
      → drive (read_all outputs status) (reading pid out) jobs
        ≡ (over, erase id jobs, on_completed (result_of id (out ++ collected outputs) status) ∷ [])
  unfolding drive read_all collected execution_thread
  drive-read_all [] status pid out jobs = rw (append-nil out) refl
  drive-read_all (bytes ∷ outputs) status pid out jobs =
      rw (← append_assoc out (chunk bytes) (collected outputs))
        (drive-read_all outputs status pid (out ++ chunk bytes) jobs)

  drive-life :
      (pid : ℕ) (outputs : List Text) (status : WaitStatus) (phase : Phase) (jobs : Dict ℕ)
      → phase ≡ launched
      → drive (life pid outputs status) phase jobs ≡ (
        over,
        erase id (enter_pid id pid jobs),
        extraction dir id spec
            ++ (child_of pid dir id spec
                ∷ on_started id pid
                ∷ on_completed (result_of id (collected outputs) status)
                ∷ []),
      )
  unfolding drive execution_thread
  drive-life pid outputs status phase jobs at =
      rw (at, drive-read_all outputs status pid [] (enter_pid id pid jobs), append_assoc) refl

pub run-drive :
    (is : List Input) (n : ℕ) (t : Thread) (x : JobExecutor)
    → x.threads n ≡ some t
    → let r = run (map (moves n) is) x in
      let d = drive x.work_dir t.job_id t.spec is t.phase x.running_jobs in
      (r.0.running_jobs ≡ d.1) × (r.1 ≡ d.2) × (r.0.threads n ≡ some (record t { phase = d.0 }))
unfolding run drive advance step
run-drive [] n t x here = (refl, refl, here)
run-drive (i ∷ is) n t x here =
    let first : step (moves n i) x ≡ advance n i t x = rw (here, step) refl in
    let rest = run-drive is n _ (advance n i t x).0 (with_thread_at n _ x) in
    (
      rw (first, run) rest.0,
      rw (first, run) (ap (λ es. (advance n i t x).1 ++ es) rest.1),
      rw (first, run) rest.2,
    )

gone : (id : Text) (pid : ℕ) (jobs : Dict ℕ) → find id (erase id (enter_pid id pid jobs)) ≡ none
gone id pid jobs = rw (find-erase, text_beq_refl) refl

others_stay :
    (id : Text) (pid : ℕ) (jobs : Dict ℕ) (j : Text)
    → id ≢ j
    → find j (erase id (enter_pid id pid jobs)) ≡ find j jobs
others_stay id pid jobs j ne = elim (Bool-cases (text_beq id j)) [
  | inl same ↦ absurd (ne ((text_beq_iff id j).0 same))
  | inr differ ↦ grind (arith, find-erase, find-assign)
]

-- A thread that is launched, gets a pipe and forks, whose process writes `outputs` and ends: in all it
-- extracts the archive, if there is one, starts the command in the child, reports the start with the
-- pid, and then reports the end once, with the output up to the first NUL of each piece read and with
-- the exit code of `result_of`. Then the job is not in the table, and no other entry has changed.
pub thread_life :
    (n : ℕ) (t : Thread) (x : JobExecutor) (pid : ℕ) (outputs : List Text) (status : WaitStatus)
    → x.threads n ≡ some t
    → t.phase ≡ launched
    → let (x', events) = run (map (moves n) (life pid outputs status)) x in
      (events
        ≡ extraction x.work_dir t.job_id t.spec
          ++ (child_of pid x.work_dir t.job_id t.spec
              ∷ on_started t.job_id pid
              ∷ on_completed (result_of t.job_id (collected outputs) status)
              ∷ []))
      × (find t.job_id x'.running_jobs ≡ none)
      × ((j : Text) → t.job_id ≢ j → find j x'.running_jobs ≡ find j x.running_jobs)
      × (x'.threads n ≡ some (record t { phase = over }))
thread_life n t x pid outputs status here at =
    let d = drive-life x.work_dir t.job_id t.spec pid outputs status t.phase x.running_jobs at in
    let (jobs, events, last) = run-drive (life pid outputs status) n t x here in
    (
      events ∙ ap (λ r. r.2) d,
      rw (jobs, d) (gone t.job_id pid x.running_jobs),
      λ j ne. rw (jobs, d) (others_stay t.job_id pid x.running_jobs j ne),
      last ∙ ap (λ r. some (record t { phase = r.0 })) d,
    )
