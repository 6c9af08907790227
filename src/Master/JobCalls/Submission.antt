-- ===== src/Master/JobCalls/Submission.antt =====
-- Submitting a job and asking for it.
use certos.Base.{
  ℕ, some, ◌≡◌, refl, ap, ◌∙◌, ◌++◌, Text, txt, text_beq_refl, if◌then◌else◌, starts_with,
  find_text,
}
use certos.Messages.{JobSpec, JobInfo, queued}
use certos.Master.KeyValue.{KvStore}
use certos.Master.Jobs.{JobManager, submitted_info, submit_job, get_job}
use certos.Master.Jobs.Updates.{get_job-submit_job}
use certos.Master.Rpc.{ok}
use certos.Master.JobCalls.{username_of, submit_job_call, get_job_status}

-- The user in a token that `Login` makes.
pub username_of-token : (u : Text) → username_of (some (txt "Bearer mock-jwt-for-" ++ u)) ≡ u
unfolding username_of find_text starts_with
username_of-token u = refl

module _ (kv : KvStore) where
  open kv use {Store}

  pub submitted_found :
      (draw : ℕ → ℕ) (now : ℕ) (u : Text) (spec : JobSpec) (s : JobManager Store)
      → let r = submit_job kv draw now spec u u s in
        get_job r.1 r.0 ≡ some (submitted_info r.1 now spec u u)
  submitted_found draw now u spec s =
      let r = submit_job kv draw now spec u u s in
      let info = submitted_info r.1 now spec u u in
      get_job-submit_job kv draw now spec u u s r.1
      ∙ ap (λ b. if b then some info else get_job r.1 s) (text_beq_refl r.1)

  -- `SubmitJob` with a token made by `Login` for a user never fails: it answers with a queued job of
  -- that user with the given specification, and `GetJobStatus` then answers with the same job.
  pub get_job_status-submit_job_call :
      (draw : ℕ → ℕ) (now : ℕ) (u : Text) (spec : JobSpec) (s : JobManager Store)
      → let r = submit_job_call kv draw now (some (txt "Bearer mock-jwt-for-" ++ u)) spec s in
        (info : JobInfo) × (r.1 ≡ ok info)
        × (info.status ≡ queued)
        × (info.username ≡ u)
        × (info.spec ≡ spec)
        × (get_job_status kv info.job_id r.0 ≡ ok info)
  unfolding submit_job_call get_job_status
  get_job_status-submit_job_call draw now u spec s =
      let found = submitted_found draw now u spec s in
      rw (username_of-token u, submit_job_call)
        (
          submitted_info (submit_job kv draw now spec u u s).1 now spec u u,
          rw (found, submit_job_call) refl,
          refl,
          refl,
          refl,
          rw (found, get_job_status) refl,
        )
