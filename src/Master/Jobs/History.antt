-- ===== src/Master/Jobs/History.antt =====
-- What a job keeps for as long as its id is not given out again.
use mathlib.Core.Option
use certos.Base.{
  ℕ, some, ◌≡◌, sym, ap, ◌∙◌, ◌≢◌, ◌<◌, inl, inr, [], ◌∷◌, List, Text, text_beq, text_beq_iff, find,
  find-assign, find-for_each, if◌then◌else◌, arith, Option-cases, Bool-cases, text_eq, All, Dict,
  assign, some_inj, subst,
}
use certos.Messages.{JobInfo}
use certos.Master.KeyValue.{KvStore}
use certos.Master.Jobs.{
  JobManager, new_job_id, submitted_info, submit_job, set_status, update_job_status, get_job,
  fail_on_node, fail_jobs_on_node,
}
use certos.Master.Jobs.Calls.{
  reported, Call, submits, updates, fails_node, cancels, step, run, Report, assigns, starts,
  completes, fails,
}
use certos.Master.Jobs.Updates.{cancel_job_result, cancelled_info}

-- The parts of a job that say who submitted what, and when.
pub record SameSubmission (a b : JobInfo) : Type 0 where
  pub job_id : b.job_id ≡ a.job_id
  pub user_id : b.user_id ≡ a.user_id
  pub username : b.username ≡ a.username
  pub spec : b.spec ≡ a.spec
  pub submitted_at : b.submitted_at ≡ a.submitted_at
  pub effective_priority : b.effective_priority ≡ a.effective_priority
  pub started_at : 0 < a.started_at → b.started_at ≡ a.started_at

-- The call does not give the id to a new job.
abbrev pub Spares : Text → Call → Type 0
Spares id (submits draw now spec user_id username) = new_job_id draw ≢ id
Spares id _ = Unit

pub SameSubmission-refl : (a : JobInfo) → SameSubmission a a
SameSubmission-refl a = ground arith

SameSubmission-trans :
    (a b c : JobInfo) → SameSubmission a b → SameSubmission b c → SameSubmission a c
SameSubmission-trans a b c p q = record {
  job_id = q.job_id ∙ p.job_id;
  user_id = q.user_id ∙ p.user_id;
  username = q.username ∙ p.username;
  spec = q.spec ∙ p.spec;
  submitted_at = q.submitted_at ∙ p.submitted_at;
  effective_priority = q.effective_priority ∙ p.effective_priority;
  started_at = λ h. ground (arith, p, q);
}

set_status-SameSubmission :
    (now : ℕ) (r : Report) (node : Text) (info : JobInfo)
    → SameSubmission info (set_status now (reported r) node info)
unfolding set_status
set_status-SameSubmission now assigns node info = ground arith
set_status-SameSubmission now starts node info = ground arith
set_status-SameSubmission now completes node info = ground arith
set_status-SameSubmission now fails node info = ground arith

fail_on_node-SameSubmission :
    (now : Text → ℕ) (node key : Text) (info : JobInfo)
    → SameSubmission info (fail_on_node node now key info)
unfolding fail_on_node
fail_on_node-SameSubmission now node key info = ground arith

-- The job under an id after some calls, compared with what it was.
abbrev pub Kept : {S : Type 0} → Text → JobInfo → JobManager S → Type 0
Kept id info s = (after : JobInfo) × (get_job id s ≡ some after) × SameSubmission info after

assign_keeps :
    (id k : Text) (info old new : JobInfo) (m : Dict JobInfo)
    → find id m ≡ some info
    → find k m ≡ some old
    → SameSubmission old new
    → (after : JobInfo) × (find id (assign k new m) ≡ some after) × SameSubmission info after
assign_keeps id k info old new m found at same = elim (Bool-cases (text_beq k id)) [
  | inl e ↦
      let same_job : old ≡ info =
        some_inj (sym at ∙ ap (λ j. find j m) ((text_beq_iff k id).0 e) ∙ found) in
      (
        new,
        find-assign k id new m ∙ ap (λ b. if b then some new else find id m) e,
        subst (λ i. SameSubmission i new) same_job same,
      )
  | inr e ↦ (
    info,
    find-assign k id new m ∙ ap (λ b. if b then some new else find id m) e ∙ found,
    SameSubmission-refl info,
  )
]

step_keeps :
    (kv : KvStore) (s : JobManager kv.Store) (c : Call) (id : Text) (info : JobInfo)
    → Spares id c
    → get_job id s ≡ some info
    → Kept id info (step kv s c)
unfolding step submit_job update_job_status fail_jobs_on_node get_job
step_keeps kv s (submits draw now spec user_id username) id info fresh found =
    let k = new_job_id draw in
    let new = submitted_info k now spec user_id username in
    elim (Bool-cases (text_beq k id)) [
      | inl e ↦ absurd (fresh ((text_beq_iff k id).0 e))
      | inr e ↦ (
        info,
        find-assign k id new s.jobs ∙ ap (λ b. if b then some new else find id s.jobs) e ∙ found,
        SameSubmission-refl info,
      )
    ]
step_keeps kv s (updates now k r node) id info _ found = elim (Option-cases (find k s.jobs)) [
  | inl e ↦ rw (e, step, update_job_status) (info, found, SameSubmission-refl info)
  | inr (old, e) ↦
      rw (e, step, update_job_status)
        (assign_keeps id k info old (set_status now (reported r) node old) s.jobs found e
          (set_status-SameSubmission now r node old))
]
step_keeps kv s (fails_node now node) id info _ found = (
  fail_on_node node now id info,
  find-for_each (fail_on_node node now) id s.jobs
      ∙ ap (Option.map (fail_on_node node now id)) found,
  fail_on_node-SameSubmission now node id info,
)
step_keeps kv s (cancels now k) id info _ found = elim (cancel_job_result now k s) [
  | inl e ↦ rw (e, step) (info, found, SameSubmission-refl info)
  | inr (old, at, e) ↦
      rw (e, step)
        (assign_keeps id k info old (cancelled_info now old) s.jobs found at (ground arith))
]

-- Over any calls that give its id to no new job, a job stays in the table and keeps its id, its user,
-- its spec, its time of submission and its priority; and once it has a start, it keeps that too.
pub run_keeps :
    (kv : KvStore) (s : JobManager kv.Store) (cs : List Call) (id : Text) (info : JobInfo)
    → All (Spares id) cs
    → get_job id s ≡ some info
    → Kept id info (run kv s cs)
unfolding run
run_keeps kv s [] id info _ found = (info, found, SameSubmission-refl info)
run_keeps kv s (c ∷ cs) id info (fresh, rest) found =
    let (mid, at, same) = step_keeps kv s c id info fresh found in
    let (after, there, same') = run_keeps kv (step kv s c) cs id mid rest at in
    (after, there, SameSubmission-trans info mid after same same')
