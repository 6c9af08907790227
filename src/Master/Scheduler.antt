-- ===== src/Master/Scheduler.antt =====
-- master/src/scheduler/scheduler_engine.cpp: the order of the pending jobs and one scheduling pass.
-- `std::sort` is the argument `sort`: the standard fixes no algorithm, and a theorem says what it
-- uses of the call. `schedule_pass` is the pass as one step, where no other call comes between its own;
-- Engine has the thread's moves through it, with other calls between them.
pub mod Order
pub mod Plan
pub mod Ledger
pub mod Capacity
pub mod Pass
pub mod Engine
mod Tests
use mathlib.Core.Option
use certos.Base.{
  ℕ, ◌+◌, ◌-◌, Bool, true, false, List, [], ◌∷◌, Option, none, some, Text, if◌then◌else◌, ltb, keep,
  is_empty, nat_beq,
}
use certos.Messages.{NodeInfo, JobInfo, ResourceSpec, is_online, assigned}
use certos.Master.Double.{Double}
use certos.Master.FairShare.{FairShareManager, apply_decay, get_priority_factor}
use certos.Master.Jobs.{JobManager, get_pending_jobs, update_job_status}
use certos.Master.Nodes.{NodeRegistry, get_all_nodes}
use certos.Master.Resources.{fits}

-- The comparison that is handed to `std::sort`.
module _ (f : Double) where
  open f use {D, of_int, mul, sub, abs, lt, tenth}

  abbrev pub effective_priority : FairShareManager D → JobInfo → D
  effective_priority fair job =
      mul (of_int job.spec.priority) (get_priority_factor f job.user_id fair)

  unfoldable pub goes_before : FairShareManager D → JobInfo → JobInfo → Bool
  goes_before fair a b =
      let prio_a = effective_priority fair a in
      let prio_b = effective_priority fair b in
      if lt tenth (abs (sub prio_a prio_b))
      then lt prio_b prio_a
      else ltb a.submitted_at b.submitted_at

-- `set_cpu_cores(avail.cpu_cores() - req.cpu_cores())` and so on. The test before it has passed, so
-- no difference wraps.
abbrev pub deduct : ResourceSpec → NodeInfo → NodeInfo
deduct req node = record node {
  available_resources = record (node.available_resources) {
    cpu_cores = node.available_resources.cpu_cores - req.cpu_cores;
    ram_mb = node.available_resources.ram_mb - req.ram_mb;
    gpu_count = node.available_resources.gpu_count - req.gpu_count;
  };
}

abbrev pub behind : NodeInfo → Option (Text × List NodeInfo) → Option (Text × List NodeInfo)
behind node none = none
behind node (some (id, nodes)) = some (id, node ∷ nodes)

-- The inner loop: the first node with room, and the nodes after the deduction.
unfoldable pub place_on : ResourceSpec → List NodeInfo → Option (Text × List NodeInfo)
place_on req [] = none
place_on req (node ∷ nodes) =
    if fits req node.available_resources
    then some (node.node_id, deduct req node ∷ nodes)
    else behind node (place_on req nodes)

-- The copies of the online nodes that the pass works on.
abbrev pub online_nodes : NodeRegistry → List NodeInfo
online_nodes registry = keep (λ node. is_online node.status) (get_all_nodes registry)

module _ {S : Type 0} where
  -- The outer loop. `now` is not read for this status.
  unfoldable pub assign_jobs :
      ℕ → List JobInfo → List NodeInfo → JobManager S → JobManager S × List NodeInfo
  assign_jobs now [] nodes s = (s, nodes)
  assign_jobs now (job ∷ jobs) nodes s = elim (place_on job.spec.resources nodes) [
    | none ↦ assign_jobs now jobs nodes s
    | some (id, nodes') ↦
        assign_jobs now jobs nodes' (update_job_status now job.job_id assigned id s).0
  ]

  unfoldable pub schedule_pass :
      (f : Double)
      → ((JobInfo → JobInfo → Bool) → List JobInfo → List JobInfo)
      → ℕ
      → NodeRegistry
      → FairShareManager f.D
      → JobManager S
      → JobManager S × FairShareManager f.D
  schedule_pass f sort now registry fair s =
      let pending_jobs = get_pending_jobs s in
      let fair' = apply_decay f now fair in
      if is_empty pending_jobs
      then (s, fair)
      else if is_empty (online_nodes registry)
      then (s, fair')
      else (
        (assign_jobs now (sort (goes_before f fair') pending_jobs) (online_nodes registry) s).0,
        fair',
      )
