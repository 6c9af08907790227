-- ===== src/Gateway/Server/Tests.antt =====
-- A gateway that is started, one client that breaks off, and one that asks for a file.
use certos.Base.{
  true, false, [], ◌∷◌, none, some, ◌≡◌, refl, Text, txt, Dict, find, assign, arith, Bool,
}
use certos.Config.{new_GatewayConfig}
use certos.Master.Samples.{map_store}
use certos.Master.RequestSamples.{map_requests, sample_json}
use certos.Gateway.{get}
use certos.Gateway.Service.{Files}
use certos.Gateway.Service.Connected.{Master, connected}
use certos.Gateway.Service.Samples.{tables}
use certos.Gateway.Bridge.{MasterStub}
use certos.Gateway.Server.{
  Request, HttpServer, new_HttpServer, start, on_accept, accepts, reads, read_fails, written, run,
}
use certos.Gateway.Server.Crash.{bad_request_ends_gateway}
use certos.Gateway.Server.Answers.{after, answer, request_answered}

abbrev files : Files (Dict Text)
files = record { read = find; save = λ path content f. (assign path content f, none) }

abbrev master : Master map_store map_requests
master = record { accounts = []; jobs = record { jobs = []; db = none }; nodes = []; requests = [] }

abbrev stub : MasterStub (Master map_store map_requests)
stub =
    connected map_store map_requests sample_json
      (record { now = 5; now_job = 5; draw = λ i. 3; number = 7; unimplemented = [] })

abbrev throws : Text → Dict Text → Bool
throws path f = false

abbrev started : HttpServer (Master map_store map_requests × Dict Text)
started = start (new_HttpServer (master, []))

bad_request_ends_gateway_example :
    run tables stub files throws new_GatewayConfig
      (accepts ∷ accepts ∷ read_fails 0 ∷ written 1 false ∷ written 0 true ∷ [])
      started
    ≡ none
bad_request_ends_gateway_example =
    bad_request_ends_gateway tables stub files throws new_GatewayConfig started (accepts ∷ [])
      (written 1 false ∷ []) refl (tt, tt) ((λ e. absurd (omega arith)), tt)

abbrev asked : Request
asked = record {
  method = get;
  target = txt "/index.html";
  authorization = none;
  upgrade = false;
  body = [];
}

request_answered_example :
    let s = on_accept started in
    (t : HttpServer (Master map_store map_requests × Dict Text)) × (after tables stub files throws
        new_GatewayConfig
        (reads 0 asked ∷ accepts ∷ read_fails 1 ∷ written 1 false ∷ [])
        s
      ≡ some t)
    × (t.connections 0 ≡ some (answer tables stub files throws new_GatewayConfig asked s.beyond))
unfolding on_accept
request_answered_example =
    request_answered tables stub files throws new_GatewayConfig (λ path f. refl) 0 asked
      (accepts ∷ read_fails 1 ∷ written 1 false ∷ []) (on_accept started) refl (omega arith)
      (tt, ((λ e. absurd (omega arith)), ((λ e. absurd (omega arith)), tt))) (tt, (tt, (refl, tt)))
