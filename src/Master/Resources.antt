-- ===== src/Master/Resources.antt =====
-- master/src/resource_manager.cpp. Each method takes the lock for its whole body. Core and GPU counts
-- are 32 bits wide and RAM sizes 64 bits, and all arithmetic wraps.
pub mod Balance
pub mod Capacity
mod Tests
use certos.Base.{
  ℕ, ◌+◌, ◌-◌, ◌%◌, ◌^◌, Bool, true, false, ◌&&◌, Option, none, some, Text, Dict, find, assign,
  if◌then◌else◌, leb, ltb,
}
use certos.Messages.{ResourceSpec, no_resources}

pub record NodeCapacity : Type 0 where
  pub total : ResourceSpec
  pub allocated : ResourceSpec

-- `capacities_`, the only state.
abbrev pub ResourceManager : Type 0
ResourceManager = Dict NodeCapacity

-- a + b and a - b at 2 ^ w.
abbrev pub add_word : ℕ → ℕ → ℕ → ℕ
add_word w a b = (a + b) % 2 ^ w

abbrev pub sub_word : ℕ → ℕ → ℕ → ℕ
sub_word w a b = (a + 2 ^ w - b) % 2 ^ w

-- The differences `avail_cpu`, `avail_ram` and `avail_gpu`; disk space is not accounted.
unfoldable pub available : NodeCapacity → ResourceSpec
available cap = record no_resources {
  cpu_cores = sub_word 32 cap.total.cpu_cores cap.allocated.cpu_cores;
  ram_mb = sub_word 64 cap.total.ram_mb cap.allocated.ram_mb;
  gpu_count = sub_word 32 cap.total.gpu_count cap.allocated.gpu_count;
}

-- `req` fits into `avail`.
abbrev pub fits : ResourceSpec → ResourceSpec → Bool
fits req avail =
    leb req.cpu_cores avail.cpu_cores
    && leb req.ram_mb avail.ram_mb
    && leb req.gpu_count avail.gpu_count

-- `auto& cap = capacities_[node_id]` makes an entry with nothing in it where there is none.
abbrev pub capacity_or_new : Option NodeCapacity → NodeCapacity
capacity_or_new none = record { total = no_resources; allocated = no_resources }
capacity_or_new (some cap) = cap

unfoldable pub set_node_capacity : Text → ResourceSpec → ResourceManager → ResourceManager
set_node_capacity node_id total caps =
    assign node_id (record { total = total; allocated = cap.allocated }) caps
  where
    cap : NodeCapacity
    cap = capacity_or_new (find node_id caps)

abbrev pub with_allocated : ResourceSpec → NodeCapacity → NodeCapacity
with_allocated req cap = record cap {
  allocated = record (cap.allocated) {
    cpu_cores = add_word 32 cap.allocated.cpu_cores req.cpu_cores;
    ram_mb = add_word 64 cap.allocated.ram_mb req.ram_mb;
    gpu_count = add_word 32 cap.allocated.gpu_count req.gpu_count;
  };
}

unfoldable pub allocate : Text → ResourceSpec → ResourceManager → ResourceManager × Bool
unfolding available
allocate node_id req caps = elim (find node_id caps) [
  | none ↦ (caps, false)
  | some cap ↦
      if fits req (available cap)
      then (assign node_id (with_allocated req cap) caps, true)
      else (caps, false)
]

-- `a > b ? a - b : 0`
abbrev pub sub_or_zero : ℕ → ℕ → ℕ
sub_or_zero a b = if ltb b a then a - b else 0

abbrev pub without_allocated : ResourceSpec → NodeCapacity → NodeCapacity
without_allocated req cap = record cap {
  allocated = record (cap.allocated) {
    cpu_cores = sub_or_zero cap.allocated.cpu_cores req.cpu_cores;
    ram_mb = sub_or_zero cap.allocated.ram_mb req.ram_mb;
    gpu_count = sub_or_zero cap.allocated.gpu_count req.gpu_count;
  };
}

unfoldable pub deallocate : Text → ResourceSpec → ResourceManager → ResourceManager
deallocate node_id req caps = elim (find node_id caps) [
  | none ↦ caps
  | some cap ↦ assign node_id (without_allocated req cap) caps
]

unfoldable pub get_available : Text → ResourceManager → ResourceSpec
unfolding available
get_available node_id caps = elim (find node_id caps) [
  | none ↦ no_resources
  | some cap ↦ available cap
]

unfoldable pub can_accommodate : Text → ResourceSpec → ResourceManager → Bool
unfolding available
can_accommodate node_id req caps = elim (find node_id caps) [
  | none ↦ false
  | some cap ↦ fits req (available cap)
]
