-- ===== src/Master/Server/Process.antt =====
-- master/src/main.cpp, with start, wait, stop and the destructor of MasterServer in
-- master/src/master_server.cpp, as moves of the process's threads. A signal is handled on main's
-- thread, which goes on when the handler has returned; a second signal meanwhile is left out. gRPC gives
-- what `BuildAndStart` came to, and a server whose `Wait` returns after `Shutdown`.
pub mod Stop
mod Tests
use certos.Base.{ℕ, Bool, true, false, List, [], ◌∷◌, Option, none, some, if◌then◌else◌}
use certos.Messages.{JobInfo}
use certos.Master.Double.{Double}
use certos.Master.Scheduler.Engine.{
  Components, SchedulerEngine, new_SchedulerEngine, start, stop_begins, stop_joins, turn,
}

-- `grpc_server_`
pub data GrpcServer : Type 0 where
  absent : GrpcServer
  serving : GrpcServer
  shut_down : GrpcServer

-- Where main is.
pub data Phase : Type 0 where
  -- before the constructor of MasterServer has returned
  constructs : Phase
  -- before `scheduler_->start`
  starts : Phase
  -- before `BuildAndStart` has returned
  builds : Phase
  -- in `wait`
  waits : Phase
  -- has returned; before the destructor of `g_server`
  destroys : (code : ℕ) → Phase
  -- the destructor joins the scheduler's thread
  joins : (code : ℕ) → Phase
  exited : (code : ℕ) → Phase
  aborted : Phase

-- Where the handler of a signal is.
pub data Handler : Type 0 where
  idle : Handler
  enters : Handler
  joining : Handler

-- `g_server` is null where `has_server` is false.
pub record MasterProcess : Type 0 where
  pub phase : Phase
  pub handler : Handler
  pub has_server : Bool
  pub engine : SchedulerEngine
  pub grpc_server : GrpcServer

-- What a step of main comes to.
pub data Outcome : Type 0 where
  done : Outcome
  null_server : Outcome
  throws : Outcome

-- `found` is what the scheduler's thread finds in the components.
pub data Move (S D : Type 0) : Type 0 where
  main_goes : (outcome : Outcome) → Move S D
  signals : Move S D
  handler_goes : Move S D
  turns : (now : ℕ) (found : Components S D) → Move S D

abbrev pub new_MasterProcess : MasterProcess
new_MasterProcess = record {
  phase = constructs;
  handler = idle;
  has_server = false;
  engine = new_SchedulerEngine;
  grpc_server = absent;
}

-- `if (grpc_server_) grpc_server_->Shutdown()`
abbrev pub shutdown : GrpcServer → GrpcServer
shutdown absent = absent
shutdown serving = shut_down
shutdown shut_down = shut_down

-- `stop` up to the join of the thread, which it skips where the engine does not run.
unfoldable pub stops_engine :
    (waiting finished : MasterProcess → MasterProcess) → MasterProcess → MasterProcess
stops_engine waiting finished p =
    if p.engine.running
    then waiting (record p { engine = stop_begins p.engine })
    else finished (record p { grpc_server = shutdown p.grpc_server })

-- The join, and the rest of `stop` once the thread has returned.
unfoldable pub joins_engine : (MasterProcess → MasterProcess) → MasterProcess → MasterProcess
joins_engine finished p =
    let engine = stop_joins p.engine in
    elim engine.thread [
      | none ↦ finished (record p { engine = engine; grpc_server = shutdown p.grpc_server })
      | some _ ↦ p
    ]

abbrev pub to_phase : Phase → MasterProcess → MasterProcess
to_phase phase p = record p { phase = phase }

abbrev pub to_handler : Handler → MasterProcess → MasterProcess
to_handler handler p = record p { handler = handler }

-- The start of the scheduler in `MasterServer::start`. It throws where the thread cannot be made, with
-- `running_` set.
unfoldable pub starts_scheduler : ℕ → Outcome → MasterProcess → MasterProcess
starts_scheduler interval_ms throws p = record p {
  phase = destroys 1;
  engine = record (p.engine) { running = true; interval_ms = interval_ms };
}
starts_scheduler interval_ms _ p = elim (start interval_ms p.engine) [
  | none ↦ to_phase aborted p
  | some engine ↦ record p { phase = builds; engine = engine }
]

-- The rest of `MasterServer::start`. The services and the interceptor are registered with the builder.
unfoldable pub builds_server : Outcome → MasterProcess → MasterProcess
builds_server throws p = to_phase (destroys 1) p
builds_server null_server p = to_phase waits p
builds_server done p = record p { phase = waits; grpc_server = serving }

-- `MasterServer::wait`, after which main returns 0.
unfoldable pub wait_returns : MasterProcess → MasterProcess
wait_returns p = elim p.grpc_server [
  | absent ↦ to_phase (destroys 0) p
  | serving ↦ p
  | shut_down ↦ to_phase (destroys 0) p
]

-- `MasterServer::~MasterServer`, if there is a server.
unfoldable pub destroys_server : ℕ → MasterProcess → MasterProcess
destroys_server code p =
    if p.has_server
    then stops_engine (to_phase (joins code)) (to_phase (exited code)) p
    else to_phase (exited code) p

-- One step of main, from its `try`.
unfoldable pub main_step : ℕ → Phase → Outcome → MasterProcess → MasterProcess
main_step interval_ms constructs throws p = to_phase (exited 1) p
main_step interval_ms constructs _ p = record p { phase = starts; has_server = true }
main_step interval_ms starts outcome p = starts_scheduler interval_ms outcome p
main_step interval_ms builds outcome p = builds_server outcome p
main_step interval_ms waits _ p = wait_returns p
main_step interval_ms (destroys code) _ p = destroys_server code p
main_step interval_ms (joins code) _ p = joins_engine (to_phase (exited code)) p
main_step interval_ms (exited code) _ p = p
main_step interval_ms aborted _ p = p

unfoldable pub handler_step : MasterProcess → MasterProcess
handler_step p = elim p.handler [
  | idle ↦ p
  | enters ↦
      if p.has_server
      then stops_engine (to_handler joining) (to_handler idle) p
      else to_handler idle p
  | joining ↦ joins_engine (to_handler idle) p
]

module _ {S : Type 0} (f : Double) (sort : (JobInfo → JobInfo → Bool) → List JobInfo → List JobInfo)
    (interval_ms : ℕ) where
  open f use {D}

  unfoldable pub step : Move S D → MasterProcess → MasterProcess
  step (main_goes outcome) p = elim p.handler [
    | idle ↦ main_step interval_ms p.phase outcome p
    | enters ↦ p
    | joining ↦ p
  ]
  step signals p = elim p.handler [ idle ↦ to_handler enters p | enters ↦ p | joining ↦ p ]
  step handler_goes p = handler_step p
  step (turns now found) p = elim p.engine.thread [
    | none ↦ p
    | some t ↦ record p {
      engine = record (p.engine) { thread = some (turn f sort p.engine.running now t found).1 };
    }
  ]

  unfoldable pub run : List (Move S D) → MasterProcess → MasterProcess
  run [] p = p
  run (m ∷ ms) p = run ms (step m p)
