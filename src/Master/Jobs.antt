-- ===== src/Master/Jobs.antt =====
-- master/src/job_manager.cpp. Each method takes the lock for its whole body, so it is one step on the
-- state. A method's readings of the clock are arguments; in a loop over the jobs, `now k` is the
-- reading at the job with key `k`. Log lines are left out.
pub mod Updates
pub mod Listing
pub mod Calls
pub mod Lifecycle
pub mod History
mod Tests
use mathlib.Core.Option
use certos.Base.{
  ℕ, ◌-◌, Bool, true, false, not, ◌&&◌, ◌||◌, List, map, Option, none, some, ◌++◌, Text, txt, Dict,
  find, assign, for_each, values, keep, is_empty, if◌then◌else◌, nat_beq, ltb, text_beq, ◌==◌,
  nat_eq, text_eq,
}
use certos.Messages.{
  JobStatus, queued, assigned, running, completed, failed, cancelled, JobSpec, JobInfo, new_JobInfo,
  status_is,
}
use certos.Uuid.{short_id}
use certos.Master.KeyValue.{KvStore}

-- `db_` may be null.
pub record JobManager (S : Type 0) : Type 0 where
  pub jobs : Dict JobInfo
  pub db : Option S

abbrev pub new_job_id : (ℕ → ℕ) → Text
new_job_id draw = short_id (txt "job-") draw

-- The record that `submit_job` stores.
abbrev pub submitted_info : Text → ℕ → JobSpec → Text → Text → JobInfo
submitted_info job_id now spec user_id username = record new_JobInfo {
  job_id = job_id;
  user_id = user_id;
  username = username;
  spec = spec;
  status = queued;
  submitted_at = now;
  effective_priority = spec.priority;
}

unfoldable pub submit_job :
    (kv : KvStore)
    → (ℕ → ℕ)
    → ℕ
    → JobSpec
    → Text
    → Text
    → JobManager kv.Store
    → JobManager kv.Store × Text
submit_job kv draw now spec user_id username s =
    let job_id = new_job_id draw in
    (
      record {
        jobs = assign job_id (submitted_info job_id now spec user_id username) s.jobs;
        db = Option.map (λ st. (kv.set_kv st (txt "job:" ++ job_id) (txt "QUEUED")).0) s.db;
      },
      job_id,
    )

abbrev pub is_over : JobStatus → Bool
is_over current =
    status_is current completed || status_is current failed || status_is current cancelled

abbrev pub is_active : JobStatus → Bool
is_active current = status_is current assigned || status_is current running

-- The changes that a new status makes to a job.
unfoldable pub set_status : ℕ → JobStatus → Text → JobInfo → JobInfo
unfolding status_is
set_status now status node_id info =
    if is_active status
    then start_if_running (if is_empty node_id then changed else placed)
    else if is_over status
    then record changed { completed_at = now }
    else changed
  where
    changed : JobInfo
    changed = record info { status = status }

    placed : JobInfo
    placed = record changed { assigned_node_id = node_id }

    start_if_running : JobInfo → JobInfo
    start_if_running i =
        if status_is status running && i.started_at == 0 then record i { started_at = now } else i

-- What `list_jobs` lets through.
abbrev pub passes : JobStatus → JobInfo → Bool
passes filter_status info =
    status_is filter_status JobStatus.unspecified || status_is info.status filter_status

-- The loop's body in `fail_jobs_on_node`.
unfoldable pub fail_on_node : Text → (Text → ℕ) → Text → JobInfo → JobInfo
unfolding status_is
fail_on_node node_id now key info =
    if is_active info.status && info.assigned_node_id == node_id
    then record info {
      status = failed;
      error_message = txt "Node went offline";
      completed_at = now key;
    }
    else info

-- A clock that went back makes the source's difference negative, and this one 0: both are < 60.
unfoldable pub is_to_cancel : Text → (JobInfo → ℕ) → JobInfo → Bool
unfolding status_is
is_to_cancel node_id now info =
    (status_is info.status cancelled && info.assigned_node_id == node_id)
    && ltb (now info - info.completed_at) 60

module _ {S : Type 0} where
  unfoldable pub update_job_status :
      ℕ → Text → JobStatus → Text → JobManager S → JobManager S × Bool
  update_job_status now job_id status node_id s = elim (find job_id s.jobs) [
    | none ↦ (s, false)
    | some info ↦
        (record s { jobs = assign job_id (set_status now status node_id info) s.jobs }, true)
  ]

  unfoldable pub get_job : Text → JobManager S → Option JobInfo
  get_job job_id s = find job_id s.jobs

  unfoldable pub list_jobs : JobStatus → JobManager S → List JobInfo
  list_jobs filter_status s = keep (passes filter_status) (values s.jobs)

  unfoldable pub get_pending_jobs : JobManager S → List JobInfo
  unfolding list_jobs
  get_pending_jobs s = list_jobs queued s

  unfoldable pub fail_jobs_on_node : (Text → ℕ) → Text → JobManager S → JobManager S
  fail_jobs_on_node now node_id s = record s { jobs = for_each (fail_on_node node_id now) s.jobs }

  -- Both branches after the test make the same changes; they differ in the line that is logged.
  unfoldable pub cancel_job : ℕ → Text → JobManager S → JobManager S × Bool
  unfolding status_is
  cancel_job now job_id s = elim (find job_id s.jobs) [
    | none ↦ (s, false)
    | some info ↦
        if is_over info.status
        then (s, false)
        else if status_is info.status queued
        then (
          record s {
            jobs = assign job_id (record info { status = cancelled; completed_at = now }) s.jobs;
          },
          true,
        )
        else (
          record s {
            jobs = assign job_id (record info { status = cancelled; completed_at = now }) s.jobs;
          },
          true,
        )
  ]

  unfoldable pub get_jobs_to_cancel_for_node : (JobInfo → ℕ) → Text → JobManager S → List Text
  get_jobs_to_cancel_for_node now node_id s =
      map (λ info. info.job_id) (keep (is_to_cancel node_id now) (values s.jobs))
