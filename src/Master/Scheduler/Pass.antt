-- ===== src/Master/Scheduler/Pass.antt =====
-- What a scheduling pass does to the job table.
use certos.Base.{
  ℕ, Bool, List, [], ◌∷◌, Option, some, ◌≡◌, refl, sym, ap, ◌∙◌, ◌≢◌, inl, inr, Text, text_beq,
  text_beq_iff, arith, All, Option-cases, Bool-cases, Memᴰ, some_inj, subst, is_empty, All-of_mem,
  All-mem, mem_of_mem-keep, true,
}
use certos.Messages.{
  NodeInfo, JobInfo, ResourceSpec, queued, assigned, NodeStatus, online, is_online,
}
use certos.Master.Double.{Double}
use certos.Master.FairShare.{FairShareManager, apply_decay}
use certos.Master.Jobs.{JobManager, get_job, get_pending_jobs, set_status, update_job_status}
use certos.Master.Jobs.Updates.{get_job-update_job_status}
use certos.Master.Jobs.Listing.{mem-get_pending_jobs}
use certos.Master.Jobs.Lifecycle.{Inv}
use certos.Master.Jobs.History.{SameSubmission, SameSubmission-refl}
use certos.Master.Nodes.{NodeRegistry, get_all_nodes}
use certos.Master.Scheduler.{goes_before, online_nodes, place_on, schedule_pass}
use certos.Master.Scheduler.Plan.{plan, apply_plan, assign_jobs-plan, place_on_cases}

-- What may become of a job: nothing, or it was queued and is assigned to one of the nodes.
pub data Outcome (ids : Text → Type 0) (before after : Option JobInfo) : Type 0 where
  untouched : after ≡ before → Outcome ids before after
  placed :
      (old new : JobInfo)
      → before ≡ some old
      → after ≡ some new
      → old.status ≡ queued
      → new.status ≡ assigned
      → ids new.assigned_node_id
      → SameSubmission old new
      → Outcome ids before after

-- The job is queued in the table, under its own id.
abbrev pub IsWaiting : {S : Type 0} → JobManager S → JobInfo → Type 0
IsWaiting s job = (get_job job.job_id s ≡ some job) × (job.status ≡ queued)

set_assigned :
    (now : ℕ) (node : Text) (old info : JobInfo)
    → node ≢ []
    → SameSubmission old info
    → SameSubmission old (set_status now assigned node info)
      × ((set_status now assigned node info).status ≡ assigned)
      × ((set_status now assigned node info).assigned_node_id ≡ node)
unfolding set_status
set_assigned now node old info h v = ground arith

same_so_far :
    (ids : Text → Type 0) (before after : Option JobInfo) (job info : JobInfo)
    → Outcome ids before after
    → before ≡ some job
    → after ≡ some info
    → SameSubmission job info
same_so_far ids before after job info (untouched e) b a =
    subst (SameSubmission job) (some_inj (sym b ∙ sym e ∙ a)) (SameSubmission-refl job)
same_so_far ids before after job info (placed old new b' a' _ _ _ same) b a =
    subst (λ x. SameSubmission x info) (some_inj (sym b' ∙ b))
      (subst (SameSubmission old) (some_inj (sym a' ∙ a)) same)

update_Outcome :
    {S : Type 0} (ids : Text → Type 0) (now : ℕ) (job : JobInfo) (k : Text) (start s : JobManager S)
    → IsWaiting start job
    → ids k
    → k ≢ []
    → ((j : Text) → Outcome ids (get_job j start) (get_job j s))
    → (j : Text)
    → Outcome ids (get_job j start) (get_job j (update_job_status now job.job_id assigned k s).0)
update_Outcome ids now job k start s (waits, is_queued) at some_id so_far j =
    elim (get_job-update_job_status now job.job_id assigned k j s) [
      | inl (_, _, same) ↦
          subst (λ t. Outcome ids (get_job j start) (get_job j t)) (sym same) (so_far j)
      | inr (info, found, _, e) ↦ elim (Bool-cases (text_beq job.job_id j)) [
        | inr other ↦ subst (Outcome ids (get_job j start)) (sym (rw other at e)) (so_far j)
        | inl hit ↦
            let same_id : job.job_id ≡ j = (text_beq_iff job.job_id j).0 hit in
            let so = same_so_far ids _ _ job info (so_far job.job_id) waits found in
            let (kept, status, node) = set_assigned now k job info some_id so in
            placed job (set_status now assigned k info)
              (ap (λ i. get_job i start) (sym same_id) ∙ waits) (rw hit at e) is_queued status
              (subst ids (sym node) at) kept
      ]
    ]

-- A job and a node id that a plan may join.
abbrev MayHost : (Text → Type 0) → Text → Type 0
MayHost ids k = ids k × (k ≢ [])

abbrev MayJoin : {S : Type 0} → (Text → Type 0) → JobManager S → JobInfo × Text → Type 0
MayJoin ids start e = IsWaiting start e.0 × MayHost ids e.1

apply_plan-Outcome :
    {S : Type 0} (ids : Text → Type 0) (now : ℕ) (p : List (JobInfo × Text))
    (start s : JobManager S)
    → All (MayJoin ids start) p
    → ((j : Text) → Outcome ids (get_job j start) (get_job j s))
    → (j : Text) → Outcome ids (get_job j start) (get_job j (apply_plan now p s))
unfolding apply_plan
apply_plan-Outcome ids now [] start s _ so_far j = so_far j
apply_plan-Outcome ids now ((job, k) ∷ p) start s ((waits, (at, some_id)), rest) so_far j =
    apply_plan-Outcome ids now p start (update_job_status now job.job_id assigned k s).0 rest
      (update_Outcome ids now job k start s waits at some_id so_far) j

module _ (Q : Text → Type 0) where
  pub place_on_keeps_ids :
      (req : ResourceSpec) (nodes nodes' : List NodeInfo) (k : Text)
      → place_on req nodes ≡ some (k, nodes')
      → All (λ node. Q node.node_id) nodes
      → Q k × All (λ node. Q node.node_id) nodes'
  unfolding place_on
  place_on_keeps_ids req [] nodes' k e h = cc
  place_on_keeps_ids req (node ∷ nodes) nodes' k e (h, hs) =
      elim (place_on_cases req node nodes nodes' k e) [
        | inl (_, at, same) ↦ rw same (subst Q at h, (h, hs))
        | inr (rest, r, same) ↦
            let (q, qs) = place_on_keeps_ids req nodes rest k r hs in rw same (q, (h, qs))
      ]

  plan-All :
      (P : JobInfo → Type 0) (jobs : List JobInfo) (nodes : List NodeInfo)
      → All P jobs
      → All (λ node. Q node.node_id) nodes
      → All (λ (e : JobInfo × Text). P e.0 × Q e.1) (plan jobs nodes)
  unfolding plan
  plan-All P [] nodes _ _ = tt
  plan-All P (job ∷ jobs) nodes (p, ps) q =
      elim (Option-cases (place_on job.spec.resources nodes)) [
        | inl e ↦ rw (e, plan) (plan-All P jobs nodes ps q)
        | inr ((k, nodes'), e) ↦
            let (qk, q') = place_on_keeps_ids job.spec.resources nodes nodes' k e q in
            rw (e, plan) ((p, qk), plan-All P jobs nodes' ps q')
      ]

is_online_sound : (status : NodeStatus) → is_online status ≡ true → status ≡ online
is_online_sound status h = ground arith

-- The id of a node that the registry shows online.
abbrev pub IsOnlineId : NodeRegistry → Text → Type 0
IsOnlineId registry k =
    (node : NodeInfo) × Memᴰ node (get_all_nodes registry)
    × (node.status ≡ online)
    × (node.node_id ≡ k)

pub online_node :
    (registry : NodeRegistry) {node : NodeInfo}
    → Memᴰ node (online_nodes registry)
    → Memᴰ node (get_all_nodes registry) × (node.status ≡ online)
online_node registry {node} m =
    let (at, h) = mem_of_mem-keep (λ node. is_online node.status) (get_all_nodes registry) m in
    (at, is_online_sound node.status h)

-- What the pass relies on: the call of `std::sort` yields none but the pending jobs.
abbrev pub Rearranges : (List JobInfo → List JobInfo) → List JobInfo → Type 0
Rearranges sorted jobs = (job : JobInfo) → Memᴰ job (sorted jobs) → Memᴰ job jobs

-- A pass, as one step, leaves every job as it was but for queued ones, and a queued job that it touches
-- becomes assigned to a node that the registry shows online, with its submission kept. This is of a
-- table that meets the invariant, where the sort yields none but the pending jobs and nodes have ids.
pub schedule_pass-Outcome :
    {S : Type 0} (f : Double) (sort : (JobInfo → JobInfo → Bool) → List JobInfo → List JobInfo)
    (now : ℕ) (registry : NodeRegistry) (fair : FairShareManager f.D) (s : JobManager S)
    → Inv s
    → Rearranges (sort (goes_before f (apply_decay f now fair))) (get_pending_jobs s)
    → All (λ node. node.node_id ≢ []) (get_all_nodes registry)
    → (j : Text)
    → Outcome
        (IsOnlineId registry)
        (get_job j s)
        (get_job j (schedule_pass f sort now registry fair s).0)
unfolding schedule_pass get_job
schedule_pass-Outcome f sort now registry fair s v rearranges some_ids j =
    let nodes = online_nodes registry in
    let sorted = sort (goes_before f (apply_decay f now fair)) (get_pending_jobs s) in
    let waiting = All-of_mem (IsWaiting s) sorted λ job m.
      let (id, found, is_queued) = (mem-get_pending_jobs s job v.distinct).0 (rearranges job m) in
      let same = (v.each id job found).named in (ap (λ i. get_job i s) same ∙ found, is_queued) in
    let hosts =
      All-of_mem (λ node. MayHost (IsOnlineId registry) node.node_id) nodes
        λ node m.
          let (at, up) = online_node registry m in
          (
            (node, at, up, refl),
            All-mem (λ n. n.node_id ≢ []) (get_all_nodes registry) some_ids at,
          ) in
    let whole =
      apply_plan-Outcome (IsOnlineId registry) now (plan sorted nodes) s s
        (plan-All (MayHost (IsOnlineId registry)) (IsWaiting s) sorted nodes waiting hosts)
        (λ i. untouched refl) j in
    elim (Bool-cases (is_empty (get_pending_jobs s))) [
      | inl e ↦ rw e (untouched refl)
      | inr e ↦ elim (Bool-cases (is_empty nodes)) [
        | inl n ↦ rw e (rw n (untouched refl))
        | inr n ↦ rw e (rw n (rw (assign_jobs-plan now sorted nodes s) whole))
      ]
    ]
