-- ===== src/Master/Jobs/Calls.antt =====
-- The calls that the program makes of the job manager, as steps of its state.
use certos.Base.{ℕ, ◌<◌, [], ◌∷◌, List, Text, text_eq}
use certos.Messages.{JobStatus, assigned, running, completed, failed, JobSpec}
use certos.Master.KeyValue.{KvStore}
use certos.Master.Jobs.{JobManager, submit_job, update_job_status, fail_jobs_on_node, cancel_job}

-- The statuses that the scheduler and the agents' reports ask for.
pub data Report : Type 0 where
  assigns starts completes fails : Report

abbrev pub reported : Report → JobStatus
reported assigns = assigned
reported starts = running
reported completes = completed
reported fails = failed

-- A call with its readings of the clock.
pub data Call : Type 0 where
  submits : (draw : ℕ → ℕ) (now : ℕ) (spec : JobSpec) (user_id username : Text) → Call
  updates : (now : ℕ) (id : Text) → Report → (node : Text) → Call
  fails_node : (now : Text → ℕ) (node : Text) → Call
  cancels : (now : ℕ) (id : Text) → Call

-- Every reading of the clock is later than the epoch.
abbrev pub IsTimed : Call → Type 0
IsTimed (submits draw now spec user_id username) = 0 < now
IsTimed (updates now id r node) = 0 < now
IsTimed (fails_node now node) = (key : Text) → 0 < now key
IsTimed (cancels now id) = 0 < now

module _ (kv : KvStore) where
  open kv use {Store}

  unfoldable pub step : JobManager Store → Call → JobManager Store
  step s (submits draw now spec user_id username) =
      (submit_job kv draw now spec user_id username s).0
  step s (updates now id r node) = (update_job_status now id (reported r) node s).0
  step s (fails_node now node) = fail_jobs_on_node now node s
  step s (cancels now id) = (cancel_job now id s).0

  -- Methods run one after another, as the lock makes them.
  unfoldable pub run : JobManager Store → List Call → JobManager Store
  run s [] = s
  run s (c ∷ cs) = run (step s c) cs
