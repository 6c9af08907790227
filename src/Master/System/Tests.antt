-- ===== src/Master/System/Tests.antt =====
-- Runs of a master.
use certos.Base.{ℕ, true, [], ◌∷◌, none, some, ◌≡◌, refl, txt, find, assign, text_beq, arith}
use certos.Messages.{JobInfo, JobSpec, new_JobSpec, assigned, status_is}
use certos.Uuid.{short_id}
use certos.Master.Samples.{map_store, whole_numbers, sample_job, sample_node}
use certos.Master.RequestSamples.{map_requests, sample_json}
use certos.Master.Rpc.{ok}
use certos.Master.Jobs.{
  get_job, get_pending_jobs, list_jobs, submitted_info, submit_job, cancel_job, new_job_id,
}
use certos.Master.Jobs.Updates.{cancelled_info}
use certos.Master.JobCalls.{cancel_job_call, submit_job_call, get_job_status, username_of}
use certos.Master.Agents.{fetch_job, report_job_started, report_job_completed, RegisterNodeRequest}
use certos.Master.Nodes.{get_all_nodes}
use certos.Master.Scheduler.{place_on}
use certos.Master.Scheduler.Engine.{
  new_SchedulerEngine, Components, looks_for_jobs, sleeps, start, places, turn,
}
use certos.Master.Scheduler.Engine.Alone
use certos.Master.System.Through.{job_goes_through, finished_info}
use certos.Master.System.{
  System, Platform, Move, turn_thread, starts, turns, submits, cancels, registers, begins_stop,
  step, Reach, here,
}
use certos.Master.System.Invariant.{Inv, chosen}
use certos.Master.System.Invariant.Moves.{Reach-Inv}
use certos.Master.System.Race.{cancelled_while_placed}
use certos.Master.System.Final.{held}
use certos.Master.System.Final.Moves.{ReachLeaving, over_stays}

-- The sort is one that leaves the order.
abbrev pf : Platform
pf = record {
  kv = map_store;
  rs = map_requests;
  js = sample_json;
  f = whole_numbers;
  sort = λ before jobs. jobs;
}

-- A master that has just been made.
abbrev fresh : System pf
fresh = record {
  engine = new_SchedulerEngine;
  parts = record {
    job_mgr = record { jobs = []; db = none };
    node_registry = [];
    fair_share = record { half_life_hours = 24; last_decay_time = 1000; user_usage = [] };
  };
  accounts = [];
  requests = [];
}

fresh-Inv : Inv fresh
unfolding find chosen
fresh-Inv = record {
  jobs = record { distinct = tt; each = λ k i e. cc };
  nodes = record { distinct = tt; named = λ k n e. cc; hosts = λ j k a b e. cc };
  named = λ k n e. cc;
  placed = λ k i e. cc;
  candidates = tt;
  going = λ e. cc;
}

-- What a move leads to.
abbrev made : Move → System pf → System pf
made m s = elim (step m s) [ none ↦ s | some t ↦ t ]

abbrev draw : ℕ → ℕ
draw i = 9

abbrev host : RegisterNodeRequest
host = record {
  hostname = txt "alpha";
  ip_address = txt "10.0.0.1";
  port = 50052;
  os_info = txt "linux";
  total_resources = record { cpu_cores = 4; ram_mb = 8192; gpu_count = 0; disk_mb = 0 };
}

abbrev submitted : System pf
submitted = made (submits draw 7 none new_JobSpec) (made (registers draw (λ i. 6) host) fresh)

abbrev stopped : System pf
stopped = made begins_stop (made (turns 8) (made (starts 1000) submitted))

submitted-Reach : Reach fresh submitted
unfolding step
submitted-Reach =
    Reach.next (Reach.next here (registers draw (λ i. 6) host) tt refl)
      (submits draw 7 none new_JobSpec) (omega arith) refl

Reach-Inv_example : Inv stopped
unfolding step start
Reach-Inv_example = Reach-Inv fresh stopped fresh-Inv (
    Reach.next
      (Reach.next (Reach.next submitted-Reach (starts 1000) tt refl) (turns 8) (omega arith) refl)
      begins_stop tt refl)

-- The thread has read the job "a", and has a node for it.
abbrev placing : System pf
placing = record fresh {
  engine = record {
    running = true;
    interval_ms = 1000;
    thread =
        some (places (sample_job (txt "a") 1 ∷ []) (sample_node (txt "n1") (txt "alpha") ∷ []));
  };
  parts = record (fresh.parts) {
    job_mgr = record { jobs = (txt "a", sample_job (txt "a") 1) ∷ []; db = none };
  };
}

cancelled_while_placed_example :
    ((cancel_job_call map_store 9 (txt "a") placing.parts.job_mgr).1
      ≡ ok (record { success = true; message = txt "Job marked for cancellation" }))
    × ((t : System pf) × (u : System pf) × (after : JobInfo) × (step (cancels 9 (txt "a")) placing
          ≡ some t)
        × (step (turns 10) t ≡ some u)
        × (get_job (txt "a") u.parts.job_mgr ≡ some after)
        × (after.status ≡ assigned)
        × (after.assigned_node_id ≡ txt "n1")
        × (after.completed_at ≡ 9))
unfolding get_job find text_beq place_on status_is
cancelled_while_placed_example =
    cancelled_while_placed placing 9 10 (sample_job (txt "a") 1) (sample_job (txt "a") 1) []
      (sample_node (txt "n1") (txt "alpha") ∷ []) _ (txt "n1") refl refl (λ e. cc) refl refl

-- The submitted job is cancelled, and then the scheduler starts.
abbrev ended : System pf
ended = made (cancels 9 (new_job_id draw)) submitted

abbrev job : JobInfo
job =
    cancelled_info 9
      (submitted_info (new_job_id draw) 7 new_JobSpec (txt "unknown") (txt "unknown"))

abbrev scheduled : System pf
scheduled = made (turns 11) (made (turns 10) (made (starts 1000) ended))

over_stays_example : get_job (new_job_id draw) scheduled.parts.job_mgr ≡ some job
unfolding step start turn_thread turn held cancel_job get_job find text_beq short_id submit_job
    status_is username_of cancel_job_call submit_job_call assign
over_stays_example =
    over_stays (new_job_id draw) job ended scheduled (λ before jobs j m. m)
      (Reach-Inv fresh ended fresh-Inv
        (Reach.next submitted-Reach (cancels 9 (new_job_id draw)) (omega arith) refl))
      refl refl tt
      (ReachLeaving.next
        (ReachLeaving.next (ReachLeaving.next ReachLeaving.here (starts 1000) tt tt refl) (turns 10)
          (omega arith) tt refl)
        (turns 11) (omega arith) tt refl)

-- A master with one node.
abbrev ready : Components map_store.Store whole_numbers.D
ready = record (fresh.parts) {
  node_registry = (txt "n1", sample_node (txt "n1") (txt "alpha")) ∷ [];
}

abbrev two_cores : JobSpec
two_cores = record new_JobSpec {
  name = txt "sum";
  resources = record { cpu_cores = 2; ram_mb = 512; gpu_count = 0; disk_mb = 0 };
}

abbrev after_submission : Components map_store.Store whole_numbers.D
after_submission = record ready {
  job_mgr = (submit_job_call map_store draw 7 none two_cores ready.job_mgr).0;
}

job_goes_through_example :
    (n : ℕ) × let moved =
        Alone.turns whole_numbers (λ before jobs. jobs) true 8 n looks_for_jobs after_submission in
      let started = report_job_started 9 (new_job_id draw) (txt "n1") moved.0.job_mgr in
      let ended = report_job_completed 10 (new_job_id draw) (txt "n1") started.0 in
      (moved.1 ≡ sleeps)
      × (fetch_job (txt "n1") moved.0.job_mgr
          ≡ ok (record { has_job = true; job_id = new_job_id draw; spec = two_cores }))
      × (started.1 ≡ ok (record { success = true; message = [] }))
      × (ended.1 ≡ ok (record { success = true; message = [] }))
      × (get_job_status map_store (new_job_id draw) ended.0
          ≡ ok (finished_info draw 7 9 10 none two_cores (txt "n1")))
unfolding get_pending_jobs list_jobs place_on get_all_nodes
job_goes_through_example =
    job_goes_through map_store whole_numbers (λ before jobs. jobs) draw 7 8 9 10 none two_cores
      (txt "n1") _ ready refl refl (λ before j. refl) refl refl
