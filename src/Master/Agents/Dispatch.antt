-- ===== src/Master/Agents/Dispatch.antt =====
-- How a job reaches an agent.
use certos.Base.{
  ℕ, ◌<◌, true, false, List, [], ◌∷◌, some, ◌≡◌, refl, sym, ap, ◌∙◌, ◌≢◌, ◌⊎◌, inl, inr, Text, Memᴰ,
  Bool-cases, ◌==◌, text_eq, text_beq_iff, text_beq_refl, DistinctKeys,
}
use certos.Messages.{JobInfo, JobStatus, assigned, running}
use certos.Master.KeyValue.{KvStore}
use certos.Master.Jobs.{JobManager, set_status, get_job, list_jobs, update_job_status}
use certos.Master.Jobs.Updates.{set_status_status, get_job-update_job_status}
use certos.Master.Jobs.Listing.{mem-list_jobs}
use certos.Master.Jobs.Calls.{updates, starts, step}
use certos.Master.Jobs.Lifecycle.{Inv, step-Inv}
use certos.Master.Rpc.{ok}
use certos.Master.Agents.{FetchJobResponse, first_for, fetch_job, report_job_started, report_job}

-- The answer names a job of the list that is assigned to the node, or there is none.
pub data Found (node : Text) (jobs : List JobInfo) (r : FetchJobResponse) : Type 0 where
  job :
      (info : JobInfo)
      → Memᴰ info jobs
      → info.assigned_node_id ≡ node
      → r.has_job ≡ true
      → r.job_id ≡ info.job_id
      → r.spec ≡ info.spec
      → Found node jobs r
  nothing :
      r.has_job ≡ false
      → ((info : JobInfo) → Memᴰ info jobs → info.assigned_node_id ≢ node)
      → Found node jobs r

elsewhere :
    (node : Text) (j info : JobInfo)
    → (j.assigned_node_id == node) ≡ false
    → info ≡ j
    → info.assigned_node_id ≢ node
elsewhere node j info e q at =
    let h = (text_beq_iff j.assigned_node_id node).1 (ap (λ i. i.assigned_node_id) (sym q) ∙ at) in
    cc

behind_other :
    {node : Text} {jobs : List JobInfo} {r : FetchJobResponse} (j : JobInfo)
    → (j.assigned_node_id == node) ≡ false
    → Found node jobs r
    → Found node (j ∷ jobs) r
behind_other j e (job info m at has id spec) = job info (Memᴰ.tail m) at has id spec
behind_other {node} j e (nothing lacks others) =
    nothing lacks
      λ info m. elim m [ Memᴰ.head q ↦ elsewhere node j info e q | Memᴰ.tail m' ↦ others info m' ]

first_for_cases : (node : Text) (jobs : List JobInfo) → Found node jobs (first_for node jobs)
unfolding first_for
first_for_cases node [] = nothing refl (λ info m. elim m [ ])
first_for_cases node (j ∷ jobs) = elim (Bool-cases (j.assigned_node_id == node)) [
  | inl e ↦
      rw e (job j (Memᴰ.head refl) ((text_beq_iff j.assigned_node_id node).0 e) refl refl refl)
  | inr e ↦ rw e (behind_other j e (first_for_cases node jobs))
]

-- What a node that asks for work is given: the id and specification of a job that is assigned to it
-- in the table, or no job when the table has none for it.
pub data Fetched {S : Type 0} (node : Text) (s : JobManager S) (r : FetchJobResponse) : Type 0 where
  work :
      (id : Text) (info : JobInfo)
      → get_job id s ≡ some info
      → info.status ≡ assigned
      → info.assigned_node_id ≡ node
      → r.has_job ≡ true
      → r.job_id ≡ info.job_id
      → r.spec ≡ info.spec
      → Fetched node s r
  idle :
      r.has_job ≡ false
      → ((id : Text) (info : JobInfo)
          → get_job id s ≡ some info
          → info.status ≡ assigned
          → info.assigned_node_id ≢ node)
      → Fetched node s r

assigned_status :
    {t : JobStatus} → (assigned ≡ JobStatus.unspecified) ⊎ (t ≡ assigned) → t ≡ assigned
assigned_status (inl e) = cc
assigned_status (inr e) = e

module _ {S : Type 0} where
  -- `FetchJob` always answers. In a table that holds each id once, it hands out a job that the
  -- table holds as assigned to the node that asks, with that job's id and specification, and it
  -- says that there is none only when the table has no such job.
  pub fetch_job_cases :
      (node : Text) (s : JobManager S)
      → DistinctKeys s.jobs
      → (r : FetchJobResponse) × (fetch_job node s ≡ ok r) × Fetched node s r
  unfolding fetch_job
  fetch_job_cases node s d = (
    first_for node (list_jobs assigned s),
    refl,
    elim (first_for_cases node (list_jobs assigned s)) [
      | job info m at has id spec ↦
          let (key, found, h) = (mem-list_jobs assigned s info d).0 m in
          work key info found (assigned_status h) at has id spec
      | nothing lacks others ↦
          idle lacks
            λ id info found h. others info ((mem-list_jobs assigned s info d).1 (id, found, inr h))
    ],
  )

module _ (kv : KvStore) where
  open kv use {Store}

  now_running :
      (now : ℕ) (id node : Text) (s : JobManager Store) (info : JobInfo)
      → get_job id s ≡ some info
      → (after : JobInfo) × (get_job id (update_job_status now id running node s).0 ≡ some after)
        × (after.status ≡ running)
  now_running now id node s info found = elim (get_job-update_job_status now id running node id s) [
    | inl (_, missing, _) ↦ cc
    | inr (info', _, _, updated) ↦ (
      set_status now running node info',
      rw (text_beq_refl id) at updated,
      set_status_status now running node info',
    )
  ]

  running_not-Fetched :
      (id other : Text) (s : JobManager Store) (info : JobInfo) (r : FetchJobResponse)
      → Inv s
      → get_job id s ≡ some info
      → info.status ≡ running
      → Fetched other s r
      → r.has_job ≡ true
      → r.job_id ≢ id
  unfolding get_job
  running_not-Fetched id other s info r v found runs (idle lacks _) has same = cc
  running_not-Fetched id other s info r v found runs (work key i at waits _ _ named _) has same =
      let e = (v.each key i at).named in let key_id = sym e ∙ sym named ∙ same in cc

  -- Once an agent reported the start of a job in the table, after the epoch, `FetchJob` hands that
  -- job out to no node. This is of a table that meets the invariant.
  pub started_not_fetched :
      (now : ℕ) (id node other : Text) (s : JobManager Store) (info : JobInfo)
      → Inv s
      → 0 < now
      → get_job id s ≡ some info
      → let s' = (report_job_started now id node s).0 in
        (r : FetchJobResponse) × (fetch_job other s' ≡ ok r) × (r.has_job ≡ true → r.job_id ≢ id)
  unfolding report_job step
  started_not_fetched now id node other s info v h found =
      let s' = (update_job_status now id running node s).0 in
      let v' = step-Inv kv s (updates now id starts node) h v in
      let (r, e, answer) = fetch_job_cases other s' v'.distinct in
      let (after, at, runs) = now_running now id node s info found in
      (r, e, running_not-Fetched id other s' after r v' at runs answer)
