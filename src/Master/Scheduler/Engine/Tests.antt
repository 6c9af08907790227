-- ===== src/Master/Scheduler/Engine/Tests.antt =====
-- The scheduler's thread on its own, and its end.
use certos.Base.{
  ℕ, true, false, [], ◌∷◌, none, some, ◌≡◌, refl, Text, txt, text_beq, find, Each-of_All,
}
use certos.Messages.{status_is}
use certos.Master.Jobs.{get_job}
use certos.Master.Jobs.Lifecycle.{Inv, JobInv}
use certos.Master.Nodes.{get_all_nodes}
use certos.Master.Scheduler.Pass.{Outcome, IsOnlineId}
use certos.Master.Scheduler.Engine.Placing.{turns-Outcome}
use certos.Master.Samples.{map_store, whole_numbers, sample_job, sample_node}
use certos.Master.Scheduler.Engine.{
  Components, SchedulerEngine, start, stop_begins, stop_joins, tests, looks_for_jobs, places,
  sleeps,
}
use certos.Master.Scheduler.Engine.Alone.{turns, passed, turns-schedule_pass}
use certos.Master.Scheduler.Engine.Ends.{moved, stop_returns}

abbrev parts : Components map_store.Store whole_numbers.D
parts = record {
  job_mgr = record {
    jobs = (txt "a", sample_job (txt "a") 1) ∷ (txt "b", sample_job (txt "b") 2) ∷ [];
    db = none;
  };
  node_registry = (txt "n1", sample_node (txt "n1") (txt "alpha")) ∷ [];
  fair_share = record { half_life_hours = 24; last_decay_time = 1000; user_usage = [] };
}

turns-schedule_pass_example :
    (n : ℕ) × (turns whole_numbers (λ before jobs. jobs) true 2000 n looks_for_jobs parts
      ≡ (passed whole_numbers (λ before jobs. jobs) true 2000 parts, sleeps))
turns-schedule_pass_example =
    turns-schedule_pass whole_numbers (λ before jobs. jobs) true 2000 parts

-- The thread is at its last job.
abbrev engine : SchedulerEngine
engine = record {
  running = true;
  interval_ms = 1000;
  thread = some (places (sample_job (txt "a") 1 ∷ []) (sample_node (txt "n1") (txt "alpha") ∷ []));
}

stop_returns_example :
    (n : ℕ) × (let stopped = stop_joins (
        moved whole_numbers
          (λ before jobs. jobs)
          (λ k. parts)
          (λ k. 2000)
          n
          (stop_begins engine)) in
      (stopped.thread ≡ none)
      × (stopped.running ≡ false)
      × (start 500 stopped
          ≡ some (record { running = true; interval_ms = 500; thread = some tests })))
stop_returns_example =
    stop_returns whole_numbers (λ before jobs. jobs) (λ k. parts) (λ k. 2000) 500 engine
      (places (sample_job (txt "a") 1 ∷ []) (sample_node (txt "n1") (txt "alpha") ∷ [])) refl refl

sample_job-JobInv : (id : Text) (t : ℕ) → JobInv id (sample_job id t)
unfolding status_is
sample_job-JobInv id t = record {
  named = refl;
  used = tt;
  unplaced = λ _. refl;
  unstarted = λ _. refl;
  unended = λ _. refl;
  started = λ e. cc;
  ended = λ e. cc;
  prioritised = refl;
}

parts-Inv : Inv parts.job_mgr
unfolding find text_beq
parts-Inv = record {
  distinct = (refl, (refl, tt));
  each =
      Each-of_All JobInv parts.job_mgr.jobs
        (sample_job-JobInv (txt "a") 1, (sample_job-JobInv (txt "b") 2, tt));
}

turns-Outcome_example :
    (n : ℕ) × let after =
        turns whole_numbers (λ before jobs. jobs) true 2000 n looks_for_jobs parts in
      (after.1 ≡ sleeps)
      × ((j : Text)
          → Outcome
              (IsOnlineId parts.node_registry)
              (get_job j parts.job_mgr)
              (get_job j after.0.job_mgr))
unfolding get_all_nodes
turns-Outcome_example =
    turns-Outcome whole_numbers (λ before jobs. jobs) true 2000 parts parts-Inv (λ job m. m)
      ((λ e. cc), tt)
