-- ===== src/Master/Scheduler/Engine.antt =====
-- master/src/scheduler/scheduler_engine.cpp: start, stop and the thread of `scheduling_loop`. The thread
-- holds a component's lock only inside that component's methods, so its moves are from one call of a
-- component to the next, and calls of others may come between. No one else calls the fair share manager,
-- so its decay and the sort that reads it are one move. The time asleep is left out.
pub mod Alone
pub mod Ends
pub mod Placing
mod Tests
use certos.Base.{ℕ, Bool, true, false, List, [], ◌∷◌, Option, none, some, if◌then◌else◌, is_empty}
use certos.Messages.{NodeInfo, JobInfo, assigned}
use certos.Master.Double.{Double}
use certos.Master.FairShare.{FairShareManager, apply_decay}
use certos.Master.Jobs.{JobManager, get_pending_jobs, update_job_status}
use certos.Master.Nodes.{NodeRegistry}
use certos.Master.Scheduler.{goes_before, place_on, online_nodes}

-- Where the thread is.
pub data Phase : Type 0 where
  -- before the test of `running_`
  tests : Phase
  -- at the head of `schedule_pass`
  looks_for_jobs : Phase
  -- before `apply_decay`
  decays : (pending_jobs : List JobInfo) → Phase
  -- before `get_all_nodes`, with the sorted jobs
  looks_for_nodes : (pending_jobs : List JobInfo) → Phase
  -- in the loop over the jobs
  places : (pending_jobs : List JobInfo) (online : List NodeInfo) → Phase
  sleeps : Phase
  -- returned
  over : Phase

-- The components that the engine shares with the services.
pub record Components (S D : Type 0) : Type 0 where
  pub job_mgr : JobManager S
  pub node_registry : NodeRegistry
  pub fair_share : FairShareManager D

-- `thread` is `none` where `thread_` is not joinable.
pub record SchedulerEngine : Type 0 where
  pub running : Bool
  pub interval_ms : ℕ
  pub thread : Option Phase

abbrev pub new_SchedulerEngine : SchedulerEngine
new_SchedulerEngine = record { running = false; interval_ms = 0; thread = none }

-- `none` is `std::terminate`: a joinable thread is assigned to.
unfoldable pub start : ℕ → SchedulerEngine → Option SchedulerEngine
start interval_ms engine = if engine.running then some engine else elim engine.thread [
  | some _ ↦ none
  | none ↦ some (record { running = true; interval_ms = interval_ms; thread = some tests })
]

-- `stop` up to the join, and the join, which waits until the thread has returned.
unfoldable pub stop_begins : SchedulerEngine → SchedulerEngine
stop_begins engine = if engine.running then record engine { running = false } else engine

abbrev pub joined : Option Phase → Option Phase
joined (some over) = none
joined thread = thread

unfoldable pub stop_joins : SchedulerEngine → SchedulerEngine
stop_joins engine = record engine { thread = joined engine.thread }

module _ {S : Type 0} (f : Double)
    (sort : (JobInfo → JobInfo → Bool) → List JobInfo → List JobInfo) where
  open f use {D}

  -- One round of the loop over the jobs.
  unfoldable pub place_next :
      ℕ → JobInfo → List JobInfo → List NodeInfo → Components S D → Components S D × Phase
  place_next now job jobs nodes w = elim (place_on job.spec.resources nodes) [
    | none ↦ (w, places jobs nodes)
    | some (id, nodes') ↦ (
      record w { job_mgr = (update_job_status now job.job_id assigned id w.job_mgr).0 },
      places jobs nodes',
    )
  ]

  -- One move of the thread, with what it reads of `running_` and of the clock.
  unfoldable pub turn : Bool → ℕ → Phase → Components S D → Components S D × Phase
  turn running now tests w = (w, if running then looks_for_jobs else over)
  turn running now looks_for_jobs w =
      let pending_jobs = get_pending_jobs w.job_mgr in
      (w, if is_empty pending_jobs then sleeps else decays pending_jobs)
  turn running now (decays pending_jobs) w =
      let fair = apply_decay f now w.fair_share in
      (record w { fair_share = fair }, looks_for_nodes (sort (goes_before f fair) pending_jobs))
  turn running now (looks_for_nodes pending_jobs) w =
      let nodes = online_nodes w.node_registry in
      (w, if is_empty nodes then sleeps else places pending_jobs nodes)
  turn running now (places [] nodes) w = (w, sleeps)
  turn running now (places (job ∷ jobs) nodes) w = place_next now job jobs nodes w
  turn running now sleeps w = (w, tests)
  turn running now over w = (w, over)
