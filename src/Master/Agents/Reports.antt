-- ===== src/Master/Agents/Reports.antt =====
-- What the agents' calls do to a job that has just been written.
use certos.Base.{
  ℕ, true, [], ◌∷◌, some, ◌≡◌, refl, Text, text_beq_refl, assign, find, find-assign, keep-assign,
  keep-assign_not,
}
use certos.Messages.{JobInfo, JobStatus, queued, assigned, status_is}
use certos.Master.Rpc.{ok}
use certos.Master.Jobs.{
  JobManager, list_jobs, get_pending_jobs, passes, set_status, update_job_status,
}
use certos.Master.Agents.{fetch_job, first_for, report_job}

-- A manager to which one job is written.
module _ {S : Type 0} where
  unfoldable pub stored : Text → JobInfo → JobManager S → JobManager S
  stored id info s = record s { jobs = assign id info s.jobs }

  pub stored_lem :
      (now : ℕ) (id : Text) (status : JobStatus) (node : Text) (info : JobInfo) (s : JobManager S)
      → find id s.jobs ≡ some info
      → update_job_status now id status node s
        ≡ (stored id (set_status now status node info) s, true)
  unfolding update_job_status stored
  stored_lem now id status node info s e = rw (e, update_job_status) refl

  pub find-stored :
      (id : Text) (info : JobInfo) (s : JobManager S) → find id (stored id info s).jobs ≡ some info
  unfolding stored
  find-stored id info s = rw (find-assign id id info s.jobs, text_beq_refl id) refl

  pub pending-stored :
      (id : Text) (info : JobInfo) (s : JobManager S)
      → info.status ≡ queued
      → get_pending_jobs s ≡ []
      → get_pending_jobs (stored id info s) ≡ info ∷ []
  unfolding stored get_pending_jobs list_jobs status_is
  pending-stored id info s e h = keep-assign (passes queued) id info s.jobs (rw e refl) h

  assigned-stored :
      (id : Text) (info : JobInfo) (s : JobManager S)
      → info.status ≡ assigned
      → list_jobs assigned s ≡ []
      → list_jobs assigned (stored id info s) ≡ info ∷ []
  unfolding stored list_jobs status_is
  assigned-stored id info s e h = keep-assign (passes assigned) id info s.jobs (rw e refl) h

  pub assigned-stored_not :
      (id : Text) (info : JobInfo) (s : JobManager S)
      → info.status ≡ queued
      → list_jobs assigned s ≡ []
      → list_jobs assigned (stored id info s) ≡ []
  unfolding stored list_jobs status_is
  assigned-stored_not id info s e h = keep-assign_not (passes assigned) id info s.jobs (rw e refl) h

  pub report_stored :
      (status : JobStatus) (now : ℕ) (id node : Text) (info : JobInfo) (s : JobManager S)
      → report_job status now id node (stored id info s) ≡ (
        stored id (set_status now status node info) (stored id info s),
        ok (record { success = true; message = [] }),
      )
  unfolding report_job
  report_stored status now id node info s =
      rw (stored_lem now id status node info (stored id info s) (find-stored id info s)) refl

  pub fetch_stored :
      (id node : Text) (info : JobInfo) (s : JobManager S)
      → list_jobs assigned s ≡ []
      → info.status ≡ assigned
      → info.assigned_node_id ≡ node
      → fetch_job node (stored id info s)
        ≡ ok (record { has_job = true; job_id = info.job_id; spec = info.spec })
  unfolding fetch_job first_for
  fetch_stored id node info s h e at =
      rw (assigned-stored id info s e h) (rw at (rw (text_beq_refl node) refl))
