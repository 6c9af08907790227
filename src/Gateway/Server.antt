-- ===== src/Gateway/Server.antt =====
-- gateway/src/http_server.cpp: HttpServer, as the completion handlers that the one thread of `ioc_` runs
-- one after another. What arrives, and whether a read or a shutdown fails, is in the event. Bytes on
-- sockets, the version and the length of an answer are left out, and so is `stop`, after which no
-- handler runs.
pub mod Events
pub mod Crash
pub mod Answers
mod Tests
use certos.Base.{
  ℕ, ◌+◌, Bool, true, false, List, [], ◌∷◌, Option, none, some, Text, txt, if◌then◌else◌, nat_beq,
}
use certos.Config.{GatewayConfig}
use certos.Gateway.{Method, Action, handle}
use certos.Gateway.Json.{Json}
use certos.Gateway.Bridge.{MasterStub}
use certos.Gateway.Service.{Files, State, Response, Status, bad_request, join, respond}

-- `upgrade` is what `is_upgrade` says.
pub record Request : Type 0 where
  pub method : Method
  pub target : Text
  pub authorization : Option Text
  pub upgrade : Bool
  pub body : Text

-- What is under way on a connection. A closed one has no handler, so its socket is gone.
pub data Phase : Type 0 where
  reading : Phase
  answering : (res : Response) → Phase
  answering_failure : (res : Response) → Phase
  closed : Phase

-- `beyond` is what the routes work on; connections are numbered as they are accepted.
pub record HttpServer (S : Type 0) : Type 0 where
  pub beyond : S
  pub accepting : Bool
  pub connections : ℕ → Option Phase
  pub next : ℕ

pub data Event : Type 0 where
  accepts accept_fails : Event
  reads : (n : ℕ) (req : Request) → Event
  read_fails : (n : ℕ) → Event
  written : (n : ℕ) (shutdown_fails : Bool) → Event

abbrev pub put : ℕ → Phase → (ℕ → Option Phase) → ℕ → Option Phase
put n p connections k = if nat_beq k n then some p else connections k

abbrev pub failure_response : Response
failure_response = record {
  status = bad_request;
  headers = (txt "Content-Type", txt "application/json") ∷ [];
  body = txt "{\"success\":false,\"error\":\"Payload too large or read error\"}";
}

module _ {S : Type 0} where
  abbrev pub new_HttpServer : S → HttpServer S
  new_HttpServer beyond = record {
    beyond = beyond;
    accepting = false;
    connections = λ n. none;
    next = 0;
  }

  abbrev pub start : HttpServer S → HttpServer S
  start s = record s { accepting = true }

  abbrev pub turn_to : ℕ → Phase → HttpServer S → HttpServer S
  turn_to n p s = record s { connections = put n p s.connections }

  -- The handler of `async_accept`; `do_accept` at its end waits for the next.
  unfoldable pub on_accept : HttpServer S → HttpServer S
  on_accept s =
      if s.accepting
      then record (turn_to s.next reading s) { next = s.next + 1; accepting = true }
      else s

  unfoldable pub on_read_failure : ℕ → HttpServer S → HttpServer S
  on_read_failure n s = elim (s.connections n) [
    | some reading ↦ turn_to n (answering_failure failure_response) s
    | _ ↦ s
  ]

  -- The handler of a write. After an answer to a request, `shutdown` is given a place for its error;
  -- after an answer to a failed read it throws, and nothing catches it (`none`).
  unfoldable pub on_written : ℕ → Bool → HttpServer S → Option (HttpServer S)
  on_written n shutdown_fails s = elim (s.connections n) [
    | some (answering res) ↦ some (turn_to n closed s)
    | some (answering_failure res) ↦ if shutdown_fails then none else some (turn_to n closed s)
    | _ ↦ some s
  ]

-- `throws path f` says that `fs::exists` throws on the path, as for a name that is too long.
module _ (js : Json) {M F : Type 0} (stub : MasterStub M) (files : Files F)
    (throws : Text → F → Bool) (config : GatewayConfig) where
  abbrev pub Beyond : Type 0
  Beyond = State js stub files

  -- Only the routes below "/api/" stand in a `try`.
  unfoldable pub is_thrown : Action → F → Bool
  is_thrown (Action.static_file path) f = throws (join config.web_root path) f
  is_thrown _ f = false

  unfoldable pub handle_request : ℕ → Request → HttpServer Beyond → Option (HttpServer Beyond)
  unfolding is_thrown
  handle_request n req s =
      if req.upgrade
      then some (turn_to n closed s)
      else if is_thrown (handle req.method req.target req.authorization) s.beyond.1
      then none
      else let (beyond, res) =
          respond js stub files config req.method req.target req.authorization req.body s.beyond in
        some (record (turn_to n (answering res) s) { beyond = beyond })

  unfoldable pub on_read : ℕ → Request → HttpServer Beyond → Option (HttpServer Beyond)
  on_read n req s = elim (s.connections n) [ some reading ↦ handle_request n req s | _ ↦ some s ]

  -- `none` where an exception leaves `ioc_.run()`, which ends the process.
  unfoldable pub step : Event → HttpServer Beyond → Option (HttpServer Beyond)
  step accepts s = some (on_accept s)
  step accept_fails s = some s
  step (reads n req) s = on_read n req s
  step (read_fails n) s = some (on_read_failure n s)
  step (written n shutdown_fails) s = on_written n shutdown_fails s

  unfoldable pub run : List Event → HttpServer Beyond → Option (HttpServer Beyond)
  run [] s = some s
  run (e ∷ es) s = elim (step e s) [ none ↦ none | some t ↦ run es t ]
