-- ===== src/Master/Jobs/Lifecycle.antt =====
-- The job table over any sequence of the calls that the program makes.
use certos.Base.{
  ℕ, ◌<◌, true, ◌≡◌, refl, inl, inr, [], ◌∷◌, List, Text, find, assign-DistinctKeys,
  for_each-DistinctKeys, arith, Option-cases, text_eq, DistinctKeys, All, Each, assign-Each,
  for_each-Each,
}
use certos.Messages.{JobStatus, queued, running, submitted, preempted, JobSpec, JobInfo, status_is}
use certos.Master.KeyValue.{KvStore}
use certos.Master.Jobs.{
  JobManager, new_job_id, submitted_info, submit_job, set_status, update_job_status, fail_on_node,
  fail_jobs_on_node, is_over,
}
use certos.Master.Jobs.Calls.{
  Report, assigns, starts, completes, fails, reported, Call, submits, updates, fails_node, cancels,
  IsTimed, step, run,
}
use certos.Master.Jobs.Updates.{cancel_job_result, cancelled_info}

abbrev pub IsUsed : JobStatus → Type 0
IsUsed JobStatus.unspecified = ⊥
IsUsed submitted = ⊥
IsUsed preempted = ⊥
IsUsed _ = Unit

-- What holds of the job under a key.
pub record JobInv (key : Text) (info : JobInfo) : Type 0 where
  pub named : info.job_id ≡ key
  pub used : IsUsed info.status
  pub unplaced : info.status ≡ queued → info.assigned_node_id ≡ []
  pub unstarted : info.status ≡ queued → info.started_at ≡ 0
  pub unended : info.status ≡ queued → info.completed_at ≡ 0
  pub started : info.status ≡ running → 0 < info.started_at
  pub ended : is_over info.status ≡ true → 0 < info.completed_at
  pub prioritised : info.effective_priority ≡ info.spec.priority

submitted-JobInv :
    (id : Text) (now : ℕ) (spec : JobSpec) (user_id username : Text)
    → JobInv id (submitted_info id now spec user_id username)
unfolding status_is
submitted-JobInv id now spec user_id username = record {
  named = refl;
  used = tt;
  unplaced = λ _. refl;
  unstarted = λ _. refl;
  unended = λ _. refl;
  started = λ e. cc;
  ended = λ e. cc;
  prioritised = refl;
}

set_status-JobInv :
    (now : ℕ) (r : Report) (node key : Text) (info : JobInfo)
    → 0 < now
    → JobInv key info
    → JobInv key (set_status now (reported r) node info)
unfolding set_status
set_status-JobInv now assigns node key info h v = ground arith
set_status-JobInv now starts node key info h v = ground arith
set_status-JobInv now completes node key info h v = ground arith
set_status-JobInv now fails node key info h v = ground arith

fail_on_node-JobInv :
    (now : Text → ℕ) (node key : Text) (info : JobInfo)
    → 0 < now key
    → JobInv key info
    → JobInv key (fail_on_node node now key info)
unfolding fail_on_node
fail_on_node-JobInv now node key info h v = ground arith

cancelled-JobInv :
    (now : ℕ) (key : Text) (info : JobInfo)
    → 0 < now
    → JobInv key info
    → JobInv key (cancelled_info now info)
unfolding status_is
cancelled-JobInv now key info h v = ground arith

-- The table holds each id once, and each job meets `JobInv`.
pub record Inv {S : Type 0} (s : JobManager S) : Type 0 where
  pub distinct : DistinctKeys s.jobs
  pub each : Each JobInv s.jobs

pub step-Inv :
    (kv : KvStore) (s : JobManager kv.Store) (c : Call) → IsTimed c → Inv s → Inv (step kv s c)
unfolding step submit_job update_job_status fail_jobs_on_node
step-Inv kv s (submits draw now spec user_id username) h v =
    let id = new_job_id draw in
    let info = submitted_info id now spec user_id username in
    record {
      distinct = assign-DistinctKeys id info s.jobs v.distinct;
      each =
          assign-Each JobInv id info s.jobs v.each (submitted-JobInv id now spec user_id username);
    }
step-Inv kv s (updates now id r node) h v = elim (Option-cases (find id s.jobs)) [
  | inl e ↦ rw (e, step, update_job_status) v
  | inr (info, e) ↦
      let info' = set_status now (reported r) node info in
      rw (e, step, update_job_status)
        (record {
          distinct = assign-DistinctKeys id info' s.jobs v.distinct;
          each =
              assign-Each JobInv id info' s.jobs v.each
                (set_status-JobInv now r node id info h (v.each id info e));
        })
]
step-Inv kv s (fails_node now node) h v = record {
  distinct = for_each-DistinctKeys (fail_on_node node now) s.jobs v.distinct;
  each =
      for_each-Each JobInv (fail_on_node node now) s.jobs
        (λ key info _ i. fail_on_node-JobInv now node key info (h key) i) v.each;
}
step-Inv kv s (cancels now id) h v = elim (cancel_job_result now id s) [
  | inl e ↦ rw (e, step) v
  | inr (info, found, e) ↦
      rw (e, step)
        (record {
          distinct = assign-DistinctKeys id (cancelled_info now info) s.jobs v.distinct;
          each =
              assign-Each JobInv id (cancelled_info now info) s.jobs v.each
                (cancelled-JobInv now id info h (v.each id info found));
        })
]

-- From a table that meets the invariant, every sequence of calls at times after the epoch leads to
-- one that does: ids are unique and agree with the records; a queued job has no node, start or end;
-- a running job has a start; a completed, failed or cancelled job has an end; and no job has a
-- status that is not in use.
pub run-Inv :
    (kv : KvStore) (s : JobManager kv.Store) (cs : List Call)
    → All IsTimed cs
    → Inv s
    → Inv (run kv s cs)
unfolding run
run-Inv kv s [] h v = v
run-Inv kv s (c ∷ cs) (h, hs) v = run-Inv kv (step kv s c) cs hs (step-Inv kv s c h v)
