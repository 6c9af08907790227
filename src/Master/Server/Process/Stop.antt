-- ===== src/Master/Server/Process/Stop.antt =====
-- What a signal does to the master's process.
use certos.Base.{
  ℕ, zero, suc, Bool, true, false, List, [], ◌∷◌, ◌++◌, none, some, ◌≡◌, refl, ap, ◌∙◌,
}
use certos.Messages.{JobInfo}
use certos.Master.Double.{Double}
use certos.Master.Scheduler.Engine
use certos.Master.Scheduler.Engine.{Components, SchedulerEngine, stop_begins, stop_joins, turn}
use certos.Master.Scheduler.Engine.Ends.{phase_after, phase_after_over}
use certos.Master.Server.Process.{
  GrpcServer, absent, serving, Phase, builds, waits, exited, idle, joining, MasterProcess, done,
  Move, main_goes, signals, handler_goes, turns, shutdown, stops_engine, joins_engine, to_handler,
  main_step, starts_scheduler, builds_server, wait_returns, destroys_server, handler_step, step,
  run,
}

-- A process whose engine is set to end, with the thread at `t`.
ending : Engine.Phase → MasterProcess → MasterProcess
ending t p = record p { engine = record (p.engine) { running = false; thread = some t } }

-- The master with its scheduler's thread at `t`.
abbrev pub at_work : ℕ → Phase → GrpcServer → Engine.Phase → MasterProcess
at_work interval_ms phase grpc_server t = record {
  phase = phase;
  handler = idle;
  has_server = true;
  engine = record { running = true; interval_ms = interval_ms; thread = some t };
  grpc_server = grpc_server;
}

-- The master after a signal.
abbrev pub stopped : ℕ → Phase → GrpcServer → MasterProcess
stopped interval_ms phase grpc_server = record {
  phase = phase;
  handler = idle;
  has_server = true;
  engine = record { running = false; interval_ms = interval_ms; thread = none };
  grpc_server = shutdown grpc_server;
}

module _ {S D : Type 0} where
  -- `n` moves of the scheduler's thread, with what it finds.
  abbrev pub turn_moves : (ℕ → ℕ) → (ℕ → Components S D) → ℕ → List (Move S D)
  turn_moves now found zero = []
  turn_moves now found (suc n) =
      turns (now 0) (found 0) ∷ turn_moves (λ k. now (suc k)) (λ k. found (suc k)) n

  -- The moves of a signal's handler, with those of the scheduler's thread while it waits for it.
  abbrev pub stop_moves : (ℕ → ℕ) → (ℕ → Components S D) → ℕ → List (Move S D)
  stop_moves now found n = signals ∷ handler_goes ∷ (turn_moves now found n ++ (handler_goes ∷ []))

  -- No signal is among the moves.
  abbrev pub NoSignal : List (Move S D) → Type 0
  NoSignal [] = Unit
  NoSignal (signals ∷ ms) = ⊥
  NoSignal (_ ∷ ms) = NoSignal ms

module _ {S : Type 0} (f : Double) (sort : (JobInfo → JobInfo → Bool) → List JobInfo → List JobInfo)
    (interval_ms : ℕ) where
  open f use {D}

  run-append :
      (ms ns : List (Move S D)) (p : MasterProcess)
      → run f sort interval_ms (ms ++ ns) p
        ≡ run f sort interval_ms ns (run f sort interval_ms ms p)
  unfolding run
  run-append [] ns p = refl
  run-append (m ∷ ms) ns p = run-append ms ns (step f sort interval_ms m p)

  run-turn_moves :
      (now : ℕ → ℕ) (found : ℕ → Components S D) (n : ℕ) (t : Engine.Phase) (p : MasterProcess)
      → run f sort interval_ms (turn_moves now found n) (ending t p)
        ≡ ending (phase_after f sort found now n t) p
  unfolding run step phase_after ending
  run-turn_moves now found zero t p = refl
  run-turn_moves now found (suc n) t p =
      run-turn_moves (λ k. now (suc k)) (λ k. found (suc k)) n
        (turn f sort false (now 0) t (found 0)).1 p

  run-stop_moves :
      (now : ℕ → ℕ) (found : ℕ → Components S D) (phase : Phase) (grpc_server : GrpcServer)
      (t : Engine.Phase)
      → (n : ℕ) × (run f sort interval_ms
            (stop_moves now found n)
            (at_work interval_ms phase grpc_server t)
          ≡ stopped interval_ms phase grpc_server)
  unfolding run step handler_step stops_engine stop_begins joins_engine stop_joins ending
  run-stop_moves now found phase grpc_server t =
      let (n, over) = phase_after_over f sort found now t in
      let p = at_work interval_ms phase grpc_server t in
      (
        n,
        run-append (turn_moves now found n) (handler_goes ∷ []) _
            ∙ ap handler_step (run-turn_moves now found n t (to_handler joining p))
            ∙ rw over refl,
      )

  -- A signal that finds main in `wait`, with the server serving, ends the master with the code 0. In
  -- whatever phase the scheduler's thread is, and whatever it finds in the components from then on,
  -- after some number of its moves the handler's join is over; and after two more steps of main the
  -- process has exited with 0, its engine does not run and has no thread, and its gRPC server is shut
  -- down.
  pub signal_ends_master :
      (now : ℕ → ℕ) (found : ℕ → Components S D) (t : Engine.Phase)
      → (n : ℕ) × (run f sort interval_ms
            (stop_moves now found n ++ (main_goes done ∷ main_goes done ∷ []))
            (at_work interval_ms waits serving t)
          ≡ stopped interval_ms (exited 0) serving)
  unfolding run step main_step starts_scheduler builds_server wait_returns destroys_server
      stops_engine
  signal_ends_master now found t =
      let (n, e) = run-stop_moves now found waits serving t in
      (
        n,
        run-append (stop_moves now found n) (main_goes done ∷ main_goes done ∷ [])
              (at_work interval_ms waits serving t)
            ∙ ap (run {S = S} f sort interval_ms (main_goes done ∷ main_goes done ∷ [])) e,
      )

  unscheduled_stays :
      (ms : List (Move S D))
      → NoSignal ms
      → let p = record (stopped interval_ms waits absent) { grpc_server = serving } in
        run f sort interval_ms ms p ≡ p
  unfolding run step handler_step main_step starts_scheduler builds_server wait_returns
      destroys_server
  unscheduled_stays [] h = refl
  unscheduled_stays (main_goes outcome ∷ ms) h = unscheduled_stays ms h
  unscheduled_stays (signals ∷ ms) h = elim h [ ]
  unscheduled_stays (handler_goes ∷ ms) h = unscheduled_stays ms h
  unscheduled_stays (turns now found ∷ ms) h = unscheduled_stays ms h

  -- A signal comes after the scheduler is started and before `BuildAndStart` has returned. After some
  -- number of moves of the scheduler's thread the handler has returned; main goes on, and the server is
  -- built. Then, whatever moves follow, as long as no further signal is among them, main waits and the
  -- gRPC server serves, and the scheduler does not run and has no thread.
  pub signal_while_building :
      (now : ℕ → ℕ) (found : ℕ → Components S D) (t : Engine.Phase) (ms : List (Move S D))
      → NoSignal ms
      → (n : ℕ) × let after =
            run f sort interval_ms
              (stop_moves now found n ++ (main_goes done ∷ ms))
              (at_work interval_ms builds absent t) in
          (after.phase ≡ waits)
          × (after.grpc_server ≡ serving)
          × (after.engine.running ≡ false)
          × (after.engine.thread ≡ none)
  unfolding run step main_step starts_scheduler builds_server wait_returns destroys_server
  signal_while_building now found t ms quiet =
      let (n, e) = run-stop_moves now found builds absent t in
      let stays =
        run-append (stop_moves now found n) (main_goes done ∷ ms)
          (at_work interval_ms builds absent t)
        ∙ ap (run {S = S} f sort interval_ms (main_goes done ∷ ms)) e
        ∙ unscheduled_stays ms quiet in
      (
        n,
        (
          ap (λ p. p.phase) stays,
          ap (λ p. p.grpc_server) stays,
          ap (λ p. p.engine.running) stays,
          ap (λ p. p.engine.thread) stays,
        ),
      )
