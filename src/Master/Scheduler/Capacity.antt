-- ===== src/Master/Scheduler/Capacity.antt =====
-- A pass never promises more of a node than the node has reported free.
use certos.Base.{
  ℕ, ◌+◌, ◌≤◌, true, List, [], ◌∷◌, some, ◌≡◌, inl, inr, Text, text_beq, if◌then◌else◌, arith,
  Option-cases, Bool-cases,
}
use certos.Messages.{NodeInfo, JobInfo, ResourceSpec}
use certos.Master.Resources.{fits}
use certos.Master.Scheduler.{deduct, place_on}
use certos.Master.Scheduler.Plan.{plan, left_over, place_on_cases}

-- What is counted.
pub data Quantity : Type 0 where
  cpus ram gpus : Quantity

abbrev pub amount : Quantity → ResourceSpec → ℕ
amount cpus r = r.cpu_cores
amount ram r = r.ram_mb
amount gpus r = r.gpu_count

-- What the nodes with an id have free, and what a plan gives to them.
unfoldable pub free_on : Quantity → Text → List NodeInfo → ℕ
free_on q id [] = 0
free_on q id (node ∷ nodes) =
    (if text_beq node.node_id id then amount q node.available_resources else 0) + free_on q id nodes

unfoldable pub planned_on : Quantity → Text → List (JobInfo × Text) → ℕ
planned_on q id [] = 0
planned_on q id ((job, k) ∷ p) =
    (if text_beq k id then amount q job.spec.resources else 0) + planned_on q id p

amount-deduct :
    (q : Quantity) (req : ResourceSpec) (node : NodeInfo)
    → fits req node.available_resources ≡ true
    → amount q (deduct req node).available_resources + amount q req
      ≡ amount q node.available_resources
amount-deduct cpus req node h = ground arith
amount-deduct ram req node h = ground arith
amount-deduct gpus req node h = ground arith

place_on_takes :
    (q : Quantity) (req : ResourceSpec) (nodes nodes' : List NodeInfo) (k id : Text)
    → place_on req nodes ≡ some (k, nodes')
    → free_on q id nodes ≡ free_on q id nodes' + (if text_beq k id then amount q req else 0)
unfolding free_on place_on
place_on_takes q req [] nodes' k id e = cc
place_on_takes q req (node ∷ nodes) nodes' k id e =
    elim (place_on_cases req node nodes nodes' k e) [
      | inl (h, at, same) ↦ rw same (
          rw (← at) (elim (Bool-cases (text_beq node.node_id id)) [
            | inl b ↦ rw b (omega (arith, amount-deduct q req node h))
            | inr b ↦ rw b (omega arith)
          ]))
      | inr (rest, r, same) ↦ rw same (omega (arith, place_on_takes q req nodes rest k id r))
    ]

free_on-plan :
    (q : Quantity) (id : Text) (jobs : List JobInfo) (nodes : List NodeInfo)
    → planned_on q id (plan jobs nodes) + free_on q id (left_over jobs nodes) ≡ free_on q id nodes
unfolding planned_on plan left_over
free_on-plan q id [] nodes = omega arith
free_on-plan q id (job ∷ jobs) nodes = elim (Option-cases (place_on job.spec.resources nodes)) [
  | inl e ↦ rw (e, plan, left_over) (free_on-plan q id jobs nodes)
  | inr ((k, nodes'), e) ↦
      rw (e, plan, left_over)
        (omega (
          arith,
          place_on_takes q job.spec.resources nodes nodes' k id e,
          free_on-plan q id jobs nodes',
        ))
]

-- For cores, RAM and GPUs alike, and for every node id: what the pass gives to the id, with what it
-- leaves there, is what was free there before. So the jobs placed on a node never need more than the
-- node has reported free.
pub plan_conserves :
    (q : Quantity) (id : Text) (jobs : List JobInfo) (nodes : List NodeInfo)
    → (planned_on q id (plan jobs nodes) + free_on q id (left_over jobs nodes) ≡ free_on q id nodes)
      × (planned_on q id (plan jobs nodes) ≤ free_on q id nodes)
plan_conserves q id jobs nodes = let total = free_on-plan q id jobs nodes in (total, omega arith)
