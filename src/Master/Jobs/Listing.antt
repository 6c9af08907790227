-- ===== src/Master/Jobs/Listing.antt =====
-- What the listings of the job manager hold.
use certos.Base.{
  ℕ, ◌-◌, ◌<◌, Bool, true, some, ◌≡◌, ◌↔◌, ◌⊎◌, inr, map, Text, text_beq_iff, find, arith, text_eq,
  DistinctKeys, Memᴰ, mem-keep_of, mem-map_of, mem_of_mem-map, mem_of_mem-keep, mem-values_of_find,
  find_of_mem-values, values, keep,
}
use certos.Messages.{JobStatus, queued, cancelled, JobInfo, status_is_iff}
use certos.Master.Jobs.{
  JobManager, get_job, passes, list_jobs, get_pending_jobs, is_to_cancel,
  get_jobs_to_cancel_for_node,
}

passes_iff :
    (f : JobStatus) (info : JobInfo)
    → (passes f info ≡ true) ↔ ((f ≡ JobStatus.unspecified) ⊎ (info.status ≡ f))
passes_iff f info =
    ground (arith, status_is_iff f JobStatus.unspecified, status_is_iff info.status f)

-- A job that a heartbeat of the node is told to cancel, at a given time.
pub record IsDue (node : Text) (now : ℕ) (info : JobInfo) : Type 0 where
  pub is_cancelled : info.status ≡ cancelled
  pub placed : info.assigned_node_id ≡ node
  pub recent : now - info.completed_at < 60

is_to_cancel_sound :
    (node : Text) (now : JobInfo → ℕ) (info : JobInfo)
    → is_to_cancel node now info ≡ true
    → IsDue node (now info) info
unfolding is_to_cancel
is_to_cancel_sound node now info h =
    ground (arith, status_is_iff info.status cancelled, text_beq_iff info.assigned_node_id node)

is_to_cancel_complete :
    (node : Text) (now : JobInfo → ℕ) (info : JobInfo)
    → IsDue node (now info) info
    → is_to_cancel node now info ≡ true
unfolding is_to_cancel
is_to_cancel_complete node now info h =
    ground (arith, status_is_iff info.status cancelled, text_beq_iff info.assigned_node_id node)

module _ {S : Type 0} where
  -- In a table that holds each id once, `list_jobs` gives exactly the jobs with the wanted status,
  -- or all of them when the filter is the unspecified status.
  pub mem-list_jobs :
      (f : JobStatus) (s : JobManager S) (info : JobInfo)
      → DistinctKeys s.jobs
      → Memᴰ info (list_jobs f s) ↔ (
          (id : Text) × (get_job id s ≡ some info)
          × ((f ≡ JobStatus.unspecified) ⊎ (info.status ≡ f)))
  unfolding list_jobs get_job
  mem-list_jobs f s info d = (to, from)
    where
      to :
          Memᴰ info (keep (passes f) (values s.jobs))
          → (id : Text) × (find id s.jobs ≡ some info)
            × ((f ≡ JobStatus.unspecified) ⊎ (info.status ≡ f))
      to m =
          let (at, h) = mem_of_mem-keep (passes f) (values s.jobs) m in
          let (id, found) = find_of_mem-values s.jobs d at in (id, found, (passes_iff f info).0 h)

      from :
          ((id : Text) × (find id s.jobs ≡ some info)
            × ((f ≡ JobStatus.unspecified) ⊎ (info.status ≡ f)))
          → Memᴰ info (keep (passes f) (values s.jobs))
      from (id, found, h) =
          mem-keep_of (passes f) (values s.jobs) (mem-values_of_find id s.jobs found)
            ((passes_iff f info).1 h)

  -- The pending jobs are the queued ones.
  pub mem-get_pending_jobs :
      (s : JobManager S) (info : JobInfo)
      → DistinctKeys s.jobs
      → Memᴰ info (get_pending_jobs s)
        ↔ ((id : Text) × (get_job id s ≡ some info) × (info.status ≡ queued))
  unfolding get_pending_jobs
  mem-get_pending_jobs s info d = (
    λ m. let (id, found, h) = (mem-list_jobs queued s info d).0 m in (id, found, ground arith),
    λ (id, found, h). (mem-list_jobs queued s info d).1 (id, found, inr h),
  )

  -- In a table that holds each id once, `get_jobs_to_cancel_for_node` gives the ids of exactly
  -- those jobs that are cancelled, stand on that node, and were marked less than 60 seconds ago.
  pub mem-get_jobs_to_cancel_for_node :
      (now : JobInfo → ℕ) (node job_id : Text) (s : JobManager S)
      → DistinctKeys s.jobs
      → Memᴰ job_id (get_jobs_to_cancel_for_node now node s) ↔ (
          (key : Text) × (info : JobInfo) × (get_job key s ≡ some info)
          × (job_id ≡ info.job_id)
          × IsDue node (now info) info)
  unfolding get_jobs_to_cancel_for_node get_job
  mem-get_jobs_to_cancel_for_node now node job_id s d = (to, from)
    where
      due : JobInfo → Bool
      due = is_to_cancel node now

      to :
          Memᴰ job_id (map (λ info. info.job_id) (keep due (values s.jobs)))
          → (key : Text) × (info : JobInfo) × (find key s.jobs ≡ some info)
            × (job_id ≡ info.job_id)
            × IsDue node (now info) info
      to m =
          let (info, kept, e) = mem_of_mem-map (λ info. info.job_id) (keep due (values s.jobs)) m in
          let (at, h) = mem_of_mem-keep due (values s.jobs) kept in
          let (key, found) = find_of_mem-values s.jobs d at in
          (key, info, found, e, is_to_cancel_sound node now info h)

      from :
          ((key : Text) × (info : JobInfo) × (find key s.jobs ≡ some info)
            × (job_id ≡ info.job_id)
            × IsDue node (now info) info)
          → Memᴰ job_id (map (λ info. info.job_id) (keep due (values s.jobs)))
      from (key, info, found, e, h) = rw e (
          mem-map_of (λ info. info.job_id) (keep due (values s.jobs))
            (mem-keep_of due (values s.jobs) (mem-values_of_find key s.jobs found)
              (is_to_cancel_complete node now info h)))
