-- ===== src/Master/Resources/Capacity.antt =====
-- No node is promised more than it has.
use certos.Base.{
  ◌^◌, ◌≤◌, ◌<◌, true, Option, ◌≡◌, inl, inr, Text, find, arith, Each, assign-Each, Option-cases,
  Bool-cases,
}
use certos.Messages.{ResourceSpec}
use certos.Master.Resources.{
  NodeCapacity, ResourceManager, available, fits, capacity_or_new, set_node_capacity,
  with_allocated, allocate, without_allocated, deallocate,
}

-- The fields are within their widths.
pub record IsWord (r : ResourceSpec) : Type 0 where
  pub cpu_cores : r.cpu_cores < 2 ^ 32
  pub ram_mb : r.ram_mb < 2 ^ 64
  pub gpu_count : r.gpu_count < 2 ^ 32

pub record Within (a b : ResourceSpec) : Type 0 where
  pub cpu_cores : a.cpu_cores ≤ b.cpu_cores
  pub ram_mb : a.ram_mb ≤ b.ram_mb
  pub gpu_count : a.gpu_count ≤ b.gpu_count

-- What is allocated is within what the node has.
pub record IsSound (key : Text) (cap : NodeCapacity) : Type 0 where
  pub total : IsWord cap.total
  pub within : Within cap.allocated cap.total

with_allocated-IsSound :
    (req : ResourceSpec) (key : Text) (cap : NodeCapacity)
    → fits req (available cap) ≡ true
    → IsSound key cap
    → IsSound key (with_allocated req cap)
unfolding available
with_allocated-IsSound req key cap h v = ground arith

without_allocated-IsSound :
    (req : ResourceSpec) (key : Text) (cap : NodeCapacity)
    → IsSound key cap
    → IsSound key (without_allocated req cap)
without_allocated-IsSound req key cap v = ground arith

-- A capacity may be set to one that holds what is allocated.
abbrev pub Holds : ResourceSpec → Option NodeCapacity → Type 0
Holds total cap = IsWord total × Within (capacity_or_new cap).allocated total

-- One call of the manager, by any thread.
pub data Step (caps : ResourceManager) : ResourceManager → Type 0 where
  allocates : (node : Text) (req : ResourceSpec) → Step caps (allocate node req caps).0
  deallocates : (node : Text) (req : ResourceSpec) → Step caps (deallocate node req caps)
  sets :
      (node : Text) (total : ResourceSpec)
      → Holds total (find node caps)
      → Step caps (set_node_capacity node total caps)

pub data Reach (start : ResourceManager) : ResourceManager → Type 0 where
  here : Reach start start
  next : {caps after : ResourceManager} → Reach start caps → Step caps after → Reach start after

allocate-IsSound :
    (node : Text) (req : ResourceSpec) (caps : ResourceManager)
    → Each IsSound caps
    → Each IsSound (allocate node req caps).0
unfolding allocate
allocate-IsSound node req caps v = elim (Option-cases (find node caps)) [
  | inl e ↦ rw (e, allocate) v
  | inr (cap, e) ↦ elim (Bool-cases (fits req (available cap))) [
    | inl h ↦
        rw (e, allocate)
          (rw h (
            assign-Each IsSound node (with_allocated req cap) caps v
              (with_allocated-IsSound req node cap h (v node cap e))))
    | inr h ↦ rw (e, allocate) (rw h v)
  ]
]

deallocate-IsSound :
    (node : Text) (req : ResourceSpec) (caps : ResourceManager)
    → Each IsSound caps
    → Each IsSound (deallocate node req caps)
unfolding deallocate
deallocate-IsSound node req caps v = elim (Option-cases (find node caps)) [
  | inl e ↦ rw (e, deallocate) v
  | inr (cap, e) ↦
      rw (e, deallocate)
        (assign-Each IsSound node (without_allocated req cap) caps v
          (without_allocated-IsSound req node cap (v node cap e)))
]

Step-IsSound :
    {caps after : ResourceManager} → Step caps after → Each IsSound caps → Each IsSound after
unfolding set_node_capacity
Step-IsSound {caps} (allocates node req) v = allocate-IsSound node req caps v
Step-IsSound {caps} (deallocates node req) v = deallocate-IsSound node req caps v
Step-IsSound {caps} (sets node total h) v =
    assign-Each IsSound node _ caps v (record { total = h.0; within = h.1 })

-- However allocations, deallocations and changes of capacity follow one another, as long as no node's
-- capacity is set below what is allocated on it, the allocated cores, RAM and GPUs of every node stay
-- within its capacity.
pub Reach-IsSound :
    {start caps : ResourceManager} → Reach start caps → Each IsSound start → Each IsSound caps
Reach-IsSound here v = v
Reach-IsSound (next r s) v = Step-IsSound s (Reach-IsSound r v)
