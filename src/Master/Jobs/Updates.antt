-- ===== src/Master/Jobs/Updates.antt =====
-- What the single operations of the job manager do to one job, and to the others.
use mathlib.Core.Bool.{false≢true}
use mathlib.Core.Option
use certos.Base.{
  ℕ, true, false, none, some, ◌≡◌, refl, sym, ◌≢◌, ap, ◌∙◌, ◌⊎◌, inl, inr, Text, text_beq,
  text_beq_iff, text_beq_refl, find, assign, find-assign, find-for_each, if◌then◌else◌, arith,
  Option-cases, Bool-cases, text_eq,
}
use certos.Messages.{JobStatus, queued, cancelled, JobSpec, JobInfo, status_is}
use certos.Master.KeyValue.{KvStore}
use certos.Master.Jobs.{
  JobManager, new_job_id, submitted_info, submit_job, set_status, update_job_status, get_job,
  fail_on_node, fail_jobs_on_node, is_over, is_active, cancel_job,
}

-- After a submission the job is found under the returned id, queued, with the given spec and user;
-- every other job is as it was. (A job that had the same id is replaced.)
pub get_job-submit_job :
    (kv : KvStore) (draw : ℕ → ℕ) (now : ℕ) (spec : JobSpec) (user_id username : Text)
    (s : JobManager kv.Store) (j : Text)
    → let r = submit_job kv draw now spec user_id username s in
      get_job j r.0 ≡ (
        if text_beq r.1 j then some (submitted_info r.1 now spec user_id username) else get_job j s)
unfolding submit_job get_job
get_job-submit_job kv draw now spec user_id username s j =
    find-assign (new_job_id draw) j (submitted_info (new_job_id draw) now spec user_id username)
      s.jobs

abbrev pub cancelled_info : ℕ → JobInfo → JobInfo
cancelled_info now info = record info { status = cancelled; completed_at = now }

cancelled_info-is_over :
    (now : ℕ) (info : JobInfo) → is_over (cancelled_info now info).status ≡ true
unfolding status_is
cancelled_info-is_over now info = refl

fail_on_node_clears :
    (node : Text) (now : Text → ℕ) (key : Text) (info : JobInfo)
    → is_active (fail_on_node node now key info).status ≡ true
    → (fail_on_node node now key info).assigned_node_id ≢ node
unfolding fail_on_node
fail_on_node_clears node now key info h = ground (arith, text_beq_iff info.assigned_node_id node)

fail_on_node_other :
    (node : Text) (now : Text → ℕ) (key : Text) (info : JobInfo)
    → (is_active info.status ≡ false) ⊎ (info.assigned_node_id ≢ node)
    → fail_on_node node now key info ≡ info
unfolding fail_on_node
fail_on_node_other node now key info h = ground (arith, text_beq_iff info.assigned_node_id node)

-- Every update gives the job the requested status.
pub set_status_status :
    (now : ℕ) (status : JobStatus) (node : Text) (info : JobInfo)
    → (set_status now status node info).status ≡ status
unfolding set_status
set_status_status now status node info = ground arith

module _ {S : Type 0} where
  -- `update_job_status` succeeds exactly on a known job, to which it gives the status; nothing else
  -- in the table changes, and an unknown id changes nothing at all.
  pub get_job-update_job_status :
      (now : ℕ) (id : Text) (status : JobStatus) (node j : Text) (s : JobManager S)
      → let r = update_job_status now id status node s in
        ((r.1 ≡ false) × (get_job id s ≡ none) × (r.0 ≡ s))
        ⊎ ((info : JobInfo) × (get_job id s ≡ some info)
            × (r.1 ≡ true)
            × (get_job j r.0
                ≡ (if text_beq id j then some (set_status now status node info) else get_job j s)))
  unfolding update_job_status get_job
  get_job-update_job_status now id status node j s = elim (Option-cases (find id s.jobs)) [
    | inl e ↦ inl (rw (e, update_job_status), e, rw (e, update_job_status))
    | inr (info, e) ↦ inr (
      info,
      e,
      rw (e, update_job_status),
      rw (e, update_job_status) (find-assign id j (set_status now status node info) s.jobs),
    )
  ]

  cancel_job_alive :
      (now : ℕ) (id : Text) (s : JobManager S) (info : JobInfo)
      → get_job id s ≡ some info
      → is_over info.status ≡ false
      → cancel_job now id s ≡ (record s { jobs = assign id (cancelled_info now info) s.jobs }, true)
  unfolding cancel_job get_job
  cancel_job_alive now id s info e alive = elim (Bool-cases (status_is info.status queued)) [
    | inl q ↦ rw (e, cancel_job) (rw alive (rw q))
    | inr q ↦ rw (e, cancel_job) (rw alive (rw q))
  ]

  -- `cancel_job` as a change of the whole table.
  pub cancel_job_result :
      (now : ℕ) (id : Text) (s : JobManager S)
      → ((cancel_job now id s).0 ≡ s)
        ⊎ ((info : JobInfo) × (find id s.jobs ≡ some info)
            × ((cancel_job now id s).0
                ≡ record s { jobs = assign id (cancelled_info now info) s.jobs }))
  unfolding get_job cancel_job
  cancel_job_result now id s = elim (Option-cases (find id s.jobs)) [
    | inl e ↦ inl (rw (e, cancel_job))
    | inr (info, e) ↦ elim (Bool-cases (is_over info.status)) [
      | inl over ↦ inl (rw (e, cancel_job) (rw over))
      | inr alive ↦ inr (info, e, ap (λ r. r.0) (cancel_job_alive now id s info e alive))
    ]
  ]

  -- `cancel_job` refuses an unknown job and one that is completed, failed or cancelled, and then
  -- changes nothing. Any other job it marks cancelled at the current time, and no other job changes.
  pub cancel_job_cases :
      (now : ℕ) (id j : Text) (s : JobManager S)
      → let r = cancel_job now id s in
        ((r.1 ≡ false)
          × (r.0 ≡ s)
          × ((get_job id s ≡ none)
              ⊎ ((info : JobInfo) × (get_job id s ≡ some info) × (is_over info.status ≡ true))))
        ⊎ ((info : JobInfo) × (get_job id s ≡ some info)
            × (is_over info.status ≡ false)
            × (r.1 ≡ true)
            × (get_job j r.0
                ≡ (if text_beq id j then some (cancelled_info now info) else get_job j s)))
  unfolding cancel_job get_job
  cancel_job_cases now id j s = elim (Option-cases (find id s.jobs)) [
    | inl e ↦ inl (rw (e, cancel_job), rw (e, cancel_job), inl e)
    | inr (info, e) ↦ elim (Bool-cases (is_over info.status)) [
      | inl over ↦
          inl (rw (e, cancel_job) (rw over), rw (e, cancel_job) (rw over), inr (info, e, over))
      | inr alive ↦
          let step = cancel_job_alive now id s info e alive in
          inr (
            info,
            e,
            alive,
            ap (λ r. r.1) step,
            ap (λ r. get_job j r.0) step ∙ find-assign id j (cancelled_info now info) s.jobs,
          )
    ]
  ]

  cancel_job_over :
      (now : ℕ) (id : Text) (s : JobManager S) (info : JobInfo)
      → get_job id s ≡ some info
      → is_over info.status ≡ true
      → cancel_job now id s ≡ (s, false)
  unfolding cancel_job get_job
  cancel_job_over now id s info e over = rw (e, cancel_job) (rw over)

  -- A cancellation that succeeded is final for `cancel_job`: a second one is refused and changes
  -- nothing.
  pub cancel_job_twice :
      (now later : ℕ) (id : Text) (s : JobManager S)
      → (cancel_job now id s).1 ≡ true
      → cancel_job later id (cancel_job now id s).0 ≡ ((cancel_job now id s).0, false)
  cancel_job_twice now later id s done = elim (cancel_job_cases now id id s) [
    | inl (refused, _, _) ↦ absurd (false≢true (sym refused ∙ done))
    | inr (info, _, _, _, found) ↦
        cancel_job_over later id (cancel_job now id s).0 (cancelled_info now info)
          (rw (text_beq_refl id) at found) (cancelled_info-is_over now info)
  ]

  -- Once a node's jobs were failed, a job of the table that is assigned or running does not stand
  -- on that node, and a job that was not active there is as it was.
  pub get_job-fail_jobs_on_node :
      (now : Text → ℕ) (node id : Text) (s : JobManager S) (info : JobInfo)
      → get_job id s ≡ some info
      → (after : JobInfo) × (get_job id (fail_jobs_on_node now node s) ≡ some after)
        × (is_active after.status ≡ true → after.assigned_node_id ≢ node)
        × ((is_active info.status ≡ false) ⊎ (info.assigned_node_id ≢ node) → after ≡ info)
  unfolding fail_jobs_on_node get_job
  get_job-fail_jobs_on_node now node id s info e = (
    fail_on_node node now id info,
    find-for_each (fail_on_node node now) id s.jobs ∙ ap (Option.map (fail_on_node node now id)) e,
    fail_on_node_clears node now id info,
    fail_on_node_other node now id info,
  )

  -- What arrives after a cancellation takes it back: `update_job_status` looks at no status, so a job
  -- whose cancellation succeeded gets whatever status the scheduler or a report of its agent asks for
  -- next, such as running.
  pub late_update_undoes_cancel :
      (now later : ℕ) (id node : Text) (status : JobStatus) (s : JobManager S)
      → (cancel_job now id s).1 ≡ true
      → (info : JobInfo) × (get_job id
            (update_job_status later id status node (cancel_job now id s).0).0
          ≡ some info)
        × (info.status ≡ status)
  late_update_undoes_cancel now later id node status s done = elim (cancel_job_cases now id id s) [
    | inl (refused, _, _) ↦ absurd (false≢true (sym refused ∙ done))
    | inr (info, _, _, _, found) ↦
        elim (get_job-update_job_status later id status node id (cancel_job now id s).0) [
          | inl (_, missing, _) ↦ cc (rw (text_beq_refl id) at found)
          | inr (info', _, _, updated) ↦ (
            set_status later status node info',
            rw (text_beq_refl id) at updated,
            set_status_status later status node info',
          )
        ]
  ]
