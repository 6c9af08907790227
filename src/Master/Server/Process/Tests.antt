-- ===== src/Master/Server/Process/Tests.antt =====
-- Runs of the master's process.
use certos.Base.{ℕ, false, List, [], ◌∷◌, ◌++◌, none, ◌≡◌, refl, txt}
use certos.Master.Samples.{map_store, whole_numbers, sample_job, sample_node}
use certos.Master.Scheduler.Engine
use certos.Master.Scheduler.Engine.{Components, start, stop_begins, stop_joins, turn}
use certos.Master.Server.Process.{
  serving, absent, waits, builds, exited, done, null_server, Move, main_goes, turns, handler_goes,
  MasterProcess, new_MasterProcess, main_step, starts_scheduler, builds_server, wait_returns,
  destroys_server, stops_engine, joins_engine, step, run,
}
use certos.Master.Server.Process.Stop.{
  at_work, stopped, stop_moves, signal_ends_master, signal_while_building,
}

abbrev parts : Components map_store.Store whole_numbers.D
parts = record {
  job_mgr = record { jobs = (txt "a", sample_job (txt "a") 1) ∷ []; db = none };
  node_registry = (txt "n1", sample_node (txt "n1") (txt "alpha")) ∷ [];
  fair_share = record { half_life_hours = 24; last_decay_time = 1000; user_usage = [] };
}

abbrev run_master : List (Move map_store.Store whole_numbers.D) → MasterProcess → MasterProcess
run_master = run whole_numbers (λ before jobs. jobs) 1000

-- How main gets there.
serves :
    run_master (main_goes done ∷ main_goes done ∷ main_goes done ∷ []) new_MasterProcess
    ≡ at_work 1000 waits serving Engine.tests
unfolding run step main_step starts_scheduler builds_server wait_returns destroys_server start
serves = refl

-- Where no port can be bound, main returns 0.
no_port_exits_zero :
    (run_master
      (main_goes done
        ∷ main_goes done
        ∷ main_goes null_server
        ∷ main_goes done
        ∷ main_goes done
        ∷ turns 9 parts
        ∷ main_goes done
        ∷ [])
      new_MasterProcess).phase
    ≡ exited 0
unfolding run step main_step starts_scheduler builds_server wait_returns destroys_server
    stops_engine joins_engine start stop_begins stop_joins turn
no_port_exits_zero = refl

signal_ends_master_example :
    (n : ℕ) × (run_master
        (stop_moves (λ k. 9) (λ k. parts) n ++ (main_goes done ∷ main_goes done ∷ []))
        (at_work 1000 waits serving Engine.looks_for_jobs)
      ≡ stopped 1000 (exited 0) serving)
signal_ends_master_example =
    signal_ends_master whole_numbers (λ before jobs. jobs) 1000 (λ k. 9) (λ k. parts)
      Engine.looks_for_jobs

signal_while_building_example :
    (n : ℕ) × let after =
        run_master
          (stop_moves (λ k. 9) (λ k. parts) n
            ++ (main_goes done ∷ main_goes done ∷ turns 10 parts ∷ handler_goes ∷ []))
          (at_work 1000 builds absent Engine.looks_for_jobs) in
      (after.phase ≡ waits)
      × (after.grpc_server ≡ serving)
      × (after.engine.running ≡ false)
      × (after.engine.thread ≡ none)
signal_while_building_example =
    signal_while_building whole_numbers (λ before jobs. jobs) 1000 (λ k. 9) (λ k. parts)
      Engine.looks_for_jobs (main_goes done ∷ turns 10 parts ∷ handler_goes ∷ []) tt
