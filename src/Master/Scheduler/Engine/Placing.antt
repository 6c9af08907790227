-- ===== src/Master/Scheduler/Engine/Placing.antt =====
-- What the thread's pass does to the job table, where no call of others comes between its moves.
use certos.Base.{ℕ, List, Bool, [], ◌≡◌, ◌≢◌, sym, ap, subst, Text, All}
use certos.Messages.{JobInfo}
use certos.Master.Double.{Double}
use certos.Master.FairShare.{apply_decay}
use certos.Master.Jobs.{get_job, get_pending_jobs}
use certos.Master.Jobs.Lifecycle.{Inv}
use certos.Master.Nodes.{get_all_nodes}
use certos.Master.Scheduler.{goes_before}
use certos.Master.Scheduler.Pass.{Outcome, Rearranges, IsOnlineId, schedule_pass-Outcome}
use certos.Master.Scheduler.Engine.{Components, looks_for_jobs, sleeps}
use certos.Master.Scheduler.Engine.Alone.{turns, turns-schedule_pass}

-- Where no call of others comes between them, the thread's moves through a pass make a whole number of
-- steps to its end, and leave every job as it was but for queued ones; a queued job that they touch
-- becomes assigned to a node that the registry shows online, with its submission kept. This is of a
-- table that meets the invariant, where the sort yields none but the pending jobs and nodes have ids.
pub turns-Outcome :
    {S : Type 0} (f : Double) (sort : (JobInfo → JobInfo → Bool) → List JobInfo → List JobInfo)
    (running : Bool) (now : ℕ) (w : Components S f.D)
    → Inv w.job_mgr
    → Rearranges
        (sort (goes_before f (apply_decay f now w.fair_share)))
        (get_pending_jobs w.job_mgr)
    → All (λ node. node.node_id ≢ []) (get_all_nodes w.node_registry)
    → (n : ℕ) × let after = turns f sort running now n looks_for_jobs w in
        (after.1 ≡ sleeps)
        × ((j : Text)
            → Outcome
                (IsOnlineId w.node_registry)
                (get_job j w.job_mgr)
                (get_job j after.0.job_mgr))
turns-Outcome f sort running now w v rearranges some_ids =
    let (n, all) = turns-schedule_pass f sort running now w in
    (
      n,
      (
        ap (λ r. r.1) all,
        λ j.
            subst (λ s. Outcome (IsOnlineId w.node_registry) (get_job j w.job_mgr) (get_job j s))
              (sym (ap (λ r. r.0.job_mgr) all))
              (schedule_pass-Outcome f sort now w.node_registry w.fair_share w.job_mgr v rearranges
                some_ids j),
      ),
    )
