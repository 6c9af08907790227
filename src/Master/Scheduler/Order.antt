-- ===== src/Master/Scheduler/Order.antt =====
-- The comparison by which the pending jobs are sorted.
use certos.Base.{◌<◌, true, false, ◌≡◌, arith}
use certos.Messages.{JobInfo}
use certos.Master.Double.{Double}
use certos.Master.FairShare.{FairShareManager}
use certos.Master.Scheduler.{effective_priority, goes_before}

module _ (f : Double) (fair : FairShareManager f.D) where
  open f use {lt, abs, sub, tenth}

  -- Priorities that differ by at most 0.1 count as equal.
  abbrev pub Close : JobInfo → JobInfo → Type 0
  Close a b =
      lt tenth (abs (sub (effective_priority f fair a) (effective_priority f fair b))) ≡ false

  abbrev pub Apart : JobInfo → JobInfo → Type 0
  Apart a b =
      lt tenth (abs (sub (effective_priority f fair a) (effective_priority f fair b))) ≡ true

  -- The comparison is no strict weak ordering, as `std::sort` needs one: of three jobs of which each
  -- is older than the one before, with the first and second close, the second and third close, and
  -- the third of lower priority than the first and apart from it, each goes before the next in a
  -- circle.
  goes_before_cycle :
      (a b c : JobInfo)
      → Close b a
      → Close c b
      → Apart a c
      → lt (effective_priority f fair c) (effective_priority f fair a) ≡ true
      → b.submitted_at < a.submitted_at
      → c.submitted_at < b.submitted_at
      → (goes_before f fair b a ≡ true)
        × (goes_before f fair c b ≡ true)
        × (goes_before f fair a c ≡ true)
  unfolding goes_before
  goes_before_cycle a b c ba cb ac higher older older' =
      (rw ba (ground arith), rw cb (ground arith), rw ac higher)
