-- ===== src/Master/Scheduler/Tests.antt =====
-- Concrete passes of the scheduler.
use certos.Base.{◌+◌, ◌≤◌, ◌≡◌, refl, List, [], ◌∷◌, map, none, txt, text_beq, find, assign, All}
use certos.Messages.{NodeInfo, JobInfo, status_is}
use certos.Master.Samples.{map_store, sample_job, sample_node}
use certos.Master.Jobs.{
  JobManager, get_job, get_pending_jobs, list_jobs, update_job_status, set_status,
}
use certos.Master.Nodes.{get_all_nodes}
use certos.Master.Scheduler.{place_on, assign_jobs, schedule_pass}
use certos.Master.Scheduler.Plan.{plan, unplaced, left_over, apply_plan, NoRoom, unplaced-NoRoom}
use certos.Master.Scheduler.Capacity.{cpus, free_on, planned_on, plan_conserves}
use certos.Master.Scheduler.Ledger.{first_fit, open_ledger, copy, Sound, assign_jobs-first_fit}

abbrev jobs : List JobInfo
jobs = sample_job (txt "a") 1 ∷ sample_job (txt "b") 2 ∷ sample_job (txt "c") 3 ∷ []

abbrev nodes : List NodeInfo
nodes = sample_node (txt "n1") (txt "alpha") ∷ []

code : Unit {0}
unfolding plan unplaced left_over place_on free_on planned_on text_beq find assign get_job
    get_pending_jobs list_jobs status_is get_all_nodes schedule_pass update_job_status set_status
code = tt

-- The node has room for two of the three jobs.
two_placed :
    plan jobs nodes ≡ (sample_job (txt "a") 1, txt "n1") ∷ (sample_job (txt "b") 2, txt "n1") ∷ []
unfolding code
two_placed = refl

unplaced-NoRoom_example :
    All (λ job. NoRoom job.spec.resources (left_over jobs nodes)) (unplaced jobs nodes)
unplaced-NoRoom_example = unplaced-NoRoom jobs nodes

plan_conserves_example :
    (planned_on cpus (txt "n1") (plan jobs nodes) + free_on cpus (txt "n1") (left_over jobs nodes)
      ≡ free_on cpus (txt "n1") nodes)
    × (planned_on cpus (txt "n1") (plan jobs nodes) ≤ free_on cpus (txt "n1") nodes)
plan_conserves_example = plan_conserves cpus (txt "n1") jobs nodes

abbrev table : JobManager map_store.Store
table = record {
  jobs = (txt "a", sample_job (txt "a") 1) ∷ (txt "b", sample_job (txt "b") 2) ∷ [];
  db = none;
}

assign_jobs-first_fit_example :
    let (placements, end) = first_fit jobs (open_ledger nodes) in
    (assign_jobs 9 jobs nodes table ≡ (apply_plan 9 placements table, map copy end))
    × Sound end
    × (map (λ e. e.node) end ≡ nodes)
assign_jobs-first_fit_example = assign_jobs-first_fit 9 jobs nodes table
