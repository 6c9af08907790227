-- ===== src/Master/Resources/Balance.antt =====
-- What an allocation takes, and what a deallocation gives back.
use certos.Base.{
  ℕ, ◌+◌, ◌-◌, ◌^◌, ◌≤◌, ◌<◌, true, false, some, ◌≡◌, ap, ◌∙◌, inl, inr, Text, text_beq_refl, find,
  find-assign, assign, assign-assign, assign_same, if◌then◌else◌, arith, Each, Option-cases,
  Bool-cases,
}
use certos.Messages.{ResourceSpec}
use certos.Master.Resources.{
  NodeCapacity, ResourceManager, available, fits, set_node_capacity, with_allocated, allocate,
  without_allocated, deallocate, get_available, can_accommodate, add_word, sub_word, sub_or_zero,
}
use certos.Master.Resources.Capacity.{IsSound}

-- `allocate` succeeds exactly when `can_accommodate` says so, and a refusal changes nothing.
pub allocate-can_accommodate :
    (node : Text) (req : ResourceSpec) (caps : ResourceManager)
    → ((allocate node req caps).1 ≡ can_accommodate node req caps)
      × ((allocate node req caps).1 ≡ false → (allocate node req caps).0 ≡ caps)
unfolding allocate can_accommodate
allocate-can_accommodate node req caps = ground (arith, Option-cases (find node caps))

fits_parts :
    (req avail : ResourceSpec)
    → fits req avail ≡ true
    → (req.cpu_cores ≤ avail.cpu_cores)
      × (req.ram_mb ≤ avail.ram_mb)
      × (req.gpu_count ≤ avail.gpu_count)
fits_parts req avail h = ground arith

restored_word32 :
    (a t r : ℕ) → a ≤ t → t < 2 ^ 32 → r ≤ sub_word 32 t a → sub_or_zero (add_word 32 a r) r ≡ a
restored_word32 a t r h k l = ground arith

restored_word64 :
    (a t r : ℕ) → a ≤ t → t < 2 ^ 64 → r ≤ sub_word 64 t a → sub_or_zero (add_word 64 a r) r ≡ a
restored_word64 a t r h k l = ground arith

restored :
    (req : ResourceSpec) (key : Text) (cap : NodeCapacity)
    → IsSound key cap
    → fits req (available cap) ≡ true
    → without_allocated req (with_allocated req cap) ≡ cap
unfolding available
restored req key account v h =
    let (c, m, g) = fits_parts req (available account) h in
    let record { total = t; allocated = a } = account in
    cc (
      restored_word32 a.cpu_cores t.cpu_cores req.cpu_cores v.within.cpu_cores v.total.cpu_cores c,
      restored_word64 a.ram_mb t.ram_mb req.ram_mb v.within.ram_mb v.total.ram_mb m,
      restored_word32 a.gpu_count t.gpu_count req.gpu_count v.within.gpu_count v.total.gpu_count g,
    )

allocate-true :
    (node : Text) (req : ResourceSpec) (caps : ResourceManager)
    → (allocate node req caps).1 ≡ true
    → (cap : NodeCapacity) × (find node caps ≡ some cap)
      × (fits req (available cap) ≡ true)
      × ((allocate node req caps).0 ≡ assign node (with_allocated req cap) caps)
unfolding allocate
allocate-true node req caps h = elim (Option-cases (find node caps)) [
  | inl e ↦ cc (rw (e, allocate) at h)
  | inr (cap, e) ↦ elim (Bool-cases (fits req (available cap))) [
    | inl f ↦ (cap, e, f, rw (e, allocate) (rw f))
    | inr f ↦ cc (rw f at (rw (e, allocate) at h))
  ]
]

-- Where no account exceeds its capacity, giving back what an allocation took that succeeded
-- restores the accounts exactly.
pub deallocate-allocate :
    (node : Text) (req : ResourceSpec) (caps : ResourceManager)
    → Each IsSound caps
    → (allocate node req caps).1 ≡ true
    → deallocate node req (allocate node req caps).0 ≡ caps
unfolding deallocate
deallocate-allocate node req caps v h =
    let (cap, found, fit, e) = allocate-true node req caps h in
    let there : find node (assign node (with_allocated req cap) caps)
        ≡ some (with_allocated req cap) =
      find-assign node node (with_allocated req cap) caps
      ∙ ap (λ b. if b then some (with_allocated req cap) else find node caps)
          (text_beq_refl node) in
    rw e (
      rw (there, deallocate)
        (rw (restored req node cap (v node cap found) fit)
          (assign-assign node cap (with_allocated req cap) caps ∙ assign_same node cap caps found)))

taken :
    (req : ResourceSpec) (key : Text) (cap : NodeCapacity)
    → IsSound key cap
    → fits req (available cap) ≡ true
    → ((available (with_allocated req cap)).cpu_cores + req.cpu_cores ≡ (available cap).cpu_cores)
      × ((available (with_allocated req cap)).ram_mb + req.ram_mb ≡ (available cap).ram_mb)
      × ((available (with_allocated req cap)).gpu_count + req.gpu_count ≡ (available cap).gpu_count)
unfolding available
taken req key cap v h = ground arith

-- Where no account exceeds its capacity, an allocation that succeeds takes exactly the request off
-- what `get_available` shows, with no wrap-around in any of the three sums and differences.
pub get_available-allocate :
    (node : Text) (req : ResourceSpec) (caps : ResourceManager)
    → Each IsSound caps
    → (allocate node req caps).1 ≡ true
    → let before = get_available node caps in
      let after = get_available node (allocate node req caps).0 in
      (after.cpu_cores + req.cpu_cores ≡ before.cpu_cores)
      × (after.ram_mb + req.ram_mb ≡ before.ram_mb)
      × (after.gpu_count + req.gpu_count ≡ before.gpu_count)
unfolding get_available
get_available-allocate node req caps v h =
    let (cap, found, fit, e) = allocate-true node req caps h in
    let there : find node (assign node (with_allocated req cap) caps)
        ≡ some (with_allocated req cap) =
      find-assign node node (with_allocated req cap) caps
      ∙ ap (λ b. if b then some (with_allocated req cap) else find node caps)
          (text_beq_refl node) in
    rw e (rw (there, found, get_available) (taken req node cap (v node cap found) fit))

-- Setting a capacity in cores below what is allocated makes the free cores wrap: the node then
-- shows 2 ^ 32 less the difference as free. (This is of an allocated count that fits into 32 bits.)
pub shrunk_capacity_wraps :
    (node : Text) (total : ResourceSpec) (cap : NodeCapacity) (caps : ResourceManager)
    → find node caps ≡ some cap
    → total.cpu_cores < cap.allocated.cpu_cores
    → cap.allocated.cpu_cores < 2 ^ 32
    → (get_available node (set_node_capacity node total caps)).cpu_cores
      ≡ 2 ^ 32 - (cap.allocated.cpu_cores - total.cpu_cores)
unfolding get_available set_node_capacity available
shrunk_capacity_wraps node total cap caps found less word =
    let shrunk : NodeCapacity = record { total = total; allocated = cap.allocated } in
    let there : find node (set_node_capacity node total caps) ≡ some shrunk =
      rw (found, set_node_capacity)
        (find-assign node node shrunk caps
          ∙ ap (λ b. if b then some shrunk else find node caps) (text_beq_refl node)) in
    rw (there, get_available) (omega arith)
