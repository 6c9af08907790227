-- ===== src/Master/Jobs/Tests.antt =====
-- Concrete runs of the job manager.
use certos.Base.{
  ℕ, ◌%◌, ◌≡◌, refl, List, [], ◌∷◌, none, some, Text, txt, text_beq, text_beq_iff, arith, ◌<◌,
  if◌then◌else◌, find, assign, DistinctKeys, nat_beq, for_each,
}
use certos.Messages.{JobInfo, running, cancelled, new_JobSpec, status_is}
use certos.Uuid.{short_id}
use certos.Master.Samples.{map_store, sample_job}
use certos.Master.Jobs.{
  JobManager, new_job_id, set_status, update_job_status, get_job, fail_jobs_on_node, fail_on_node,
  cancel_job, list_jobs, get_jobs_to_cancel_for_node,
}
use certos.Master.Jobs.Calls.{Call, submits, updates, fails_node, cancels, starts, run}
use certos.Master.Jobs.Lifecycle.{Inv, run-Inv}
use certos.Master.Jobs.History.{run_keeps, Kept}

abbrev digits : ℕ → ℕ
digits i = if nat_beq i 19 then 9 else i % 16

abbrev queued_job : JobInfo
queued_job = sample_job (txt "job-a") 7

abbrev running_job : JobInfo
running_job = record (sample_job (txt "job-b") 8) {
  status = running;
  assigned_node_id = txt "node-1";
  started_at = 9;
}

abbrev stopped_job : JobInfo
stopped_job = record (sample_job (txt "job-c") 8) {
  status = cancelled;
  assigned_node_id = txt "node-1";
  completed_at = 90;
}

abbrev table : JobManager map_store.Store
table = record {
  jobs = (txt "job-a", queued_job) ∷ (txt "job-b", running_job) ∷ (txt "job-c", stopped_job) ∷ [];
  db = some [];
}

-- What the tests compute with.
job_code : Unit {0}
unfolding find assign for_each text_beq status_is get_job update_job_status set_status cancel_job
    list_jobs get_jobs_to_cancel_for_node fail_jobs_on_node fail_on_node
job_code = tt

table-DistinctKeys : DistinctKeys table.jobs
unfolding job_code
table-DistinctKeys = (refl, (refl, (refl, tt)))

abbrev history : List Call
history =
    submits digits 12 new_JobSpec (txt "bob") (txt "bob")
    ∷ updates 13 (txt "job-a") starts (txt "node-1")
    ∷ cancels 14 (txt "job-b")
    ∷ fails_node (λ _. 15) (txt "node-1")
    ∷ []

history-IsTimed : (0 < 12) × ((0 < 13) × ((0 < 14) × (((key : Text) → 0 < 15) × Unit {0})))
history-IsTimed = omega arith

empty_table-Inv : Inv (let t : JobManager map_store.Store = record { jobs = []; db = none } in t)
unfolding find
empty_table-Inv = record { distinct = tt; each = λ id info found. cc }

run-Inv_example : Inv (run map_store (record { jobs = []; db = none }) history)
run-Inv_example =
    run-Inv map_store (record { jobs = []; db = none }) history history-IsTimed empty_table-Inv

-- The id that the first call of the history draws.
drawn_id : new_job_id digits ≡ txt "job-01234567"
unfolding short_id
drawn_id = refl

run_keeps_example : Kept (txt "job-a") queued_job (run map_store table history)
unfolding job_code short_id
run_keeps_example =
    run_keeps map_store table history (txt "job-a") queued_job
      ((λ e. cc ((text_beq_iff _ _).1 e)), (tt, (tt, (tt, tt)))) refl
