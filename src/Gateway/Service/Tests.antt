-- ===== src/Gateway/Service/Tests.antt =====
-- Requests to a gateway whose master has one account and no requests.
use certos.Base.{
  ℕ, true, false, [], ◌∷◌, ◌++◌, Option, none, some, ◌≡◌, refl, Text, txt, Dict, find, assign,
  text_beq, starts_with,
}
use certos.Config.{new_GatewayConfig}
use certos.Master.Jobs.{submitted_info, submit_job, get_job}
use certos.Master.Accounts.{grant}
use certos.Master.Samples.{map_store}
use certos.Master.RequestSamples.{map_requests, sample_json}
use certos.Gateway.{get, post}
use certos.Gateway.Cuts.{NoSlash}
use certos.Gateway.Bridge.{failure_json, login_json, submit_job_json, submitted_spec, replied}
use certos.Gateway.Service.{Files, ok, api_response, upload_path, respond, content_type, extension}
use certos.Gateway.Service.Connected.{Master, Readings, connected}
use certos.Gateway.Service.Static.{absolute_path_served}
use certos.Gateway.Service.Answers.{internal_error_changes_nothing}
use certos.Gateway.Service.Identity.{pair, login_then_submit}
use certos.Gateway.Service.Requests.{archive_not_linked}
use certos.Gateway.Service.Samples.{tables, tables-IsJson, tables-IsWritable}

-- Files as a table of contents.
abbrev files : Files (Dict Text)
files = record { read = find; save = λ path content f. (assign path content f, none) }

abbrev disk : Dict Text
disk = (txt "/etc/passwd", txt "root") ∷ []

abbrev master : Master map_store map_requests
master = record {
  accounts = (txt "user:ann", txt "pw") ∷ [];
  jobs = record { jobs = []; db = none };
  nodes = [];
  requests = [];
}

abbrev at : ℕ → Readings
at now = record { now = now; now_job = now; draw = λ i. 3; number = 7; unimplemented = [] }

service_code : Unit {0}
unfolding find text_beq starts_with assign new_GatewayConfig
service_code = tt

absolute_path_served_example :
    respond tables
      (connected map_store map_requests sample_json (at 5))
      files
      new_GatewayConfig
      get
      (txt "//etc/passwd")
      none
      []
      (master, disk)
    ≡ (
      (master, disk),
      record {
        status = ok;
        headers = (txt "Content-Type", content_type (extension (txt "/etc/passwd"))) ∷ [];
        body = txt "root";
      },
    )
unfolding service_code
absolute_path_served_example =
    absolute_path_served tables (connected map_store map_requests sample_json (at 5)) files
      new_GatewayConfig get (txt "etc/passwd") none [] (txt "root") master disk refl

-- An empty body has no name of a user to be created, so reading it throws.
internal_error_changes_nothing_example :
    (respond tables
      (connected map_store map_requests sample_json (at 5))
      files
      new_GatewayConfig
      post
      (txt "/api/v1/admin/users")
      none
      []
      (master, disk)).0.0
    ≡ master
unfolding service_code respond certos.Gateway.found_at_start certos.Base.find_text
    certos.Gateway.Bridge.Calls.create_user
internal_error_changes_nothing_example =
    internal_error_changes_nothing tables tables-IsJson
      (connected map_store map_requests sample_json (at 5)) files new_GatewayConfig post
      (txt "/api/v1/admin/users") none [] (master, disk) refl

login_then_submit_example :
    let token = grant map_store master.accounts (txt "ann") in
    let spec = submitted_spec (txt "n") (txt "ls") in
    let (jobs, id) = submit_job map_store (λ i. 3) 6 spec (txt "ann") (txt "ann") master.jobs in
    let info = submitted_info id 6 spec (txt "ann") (txt "ann") in
    (respond tables
        (connected map_store map_requests sample_json (at 5))
        files
        new_GatewayConfig
        post
        (txt "/api/v1/auth/login")
        none
        (tables.serialize
          (pair tables tables-IsJson (txt "username") (txt "ann") (txt "password") (txt "pw")))
        (master, disk)
      ≡ (
        (master, disk),
        api_response (txt "*") ok (tables.serialize (login_json tables (replied token))),
      ))
    × (respond tables
          (connected map_store map_requests sample_json (at 6))
          files
          new_GatewayConfig
          post
          (txt "/api/v1/jobs")
          (some (txt "Bearer " ++ token.access_token))
          (tables.serialize
            (pair tables tables-IsJson (txt "name") (txt "n") (txt "command") (txt "ls")))
          (master, disk)
        ≡ (
          (record master { jobs = jobs }, disk),
          api_response (txt "*") ok (tables.serialize (submit_job_json tables (replied info))),
        ))
    × (get_job id jobs ≡ some info)
unfolding service_code
login_then_submit_example =
    login_then_submit tables tables-IsJson map_store map_requests sample_json files
      new_GatewayConfig (at 5) (at 6) (txt "ann") (txt "pw") (txt "n") (txt "ls") master disk refl
      (tables-IsWritable _) (tables-IsWritable _)

r1-NoSlash : NoSlash (txt "r1")
r1-NoSlash = ((λ q. cc), ((λ q. cc), tt))

archive_not_linked_example :
    respond tables
      (connected map_store map_requests sample_json (at 5))
      files
      new_GatewayConfig
      post
      (txt "/api/v1/public/request/r1/upload")
      none
      (txt "tar")
      (master, disk)
    ≡ (
      (master, assign (upload_path (txt "/r1")) (txt "tar") disk),
      api_response (txt "*") ok (tables.serialize (failure_json tables (txt "Request not found"))),
    )
unfolding service_code
archive_not_linked_example =
    archive_not_linked tables tables-IsJson map_store map_requests sample_json files
      new_GatewayConfig (at 5) (txt "r1") (txt "tar") none master disk r1-NoSlash refl refl refl

-- A body that approves, with a comment.
abbrev review_body : Text
review_body = tables.serialize ((txt "approve", txt "true") ∷ (txt "comment", txt "fine") ∷ [])
