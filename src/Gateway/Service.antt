-- ===== src/Gateway/Service.antt =====
-- gateway/src/rest_routes.cpp: RestRoutes::handle as a whole, over the routes of the module above and the
-- methods of the bridge. What is beyond the connection, and the files, are states; log lines are left
-- out, and so are the version and the length in an answer. Files are read and written by the operating
-- system, which is a parameter.
mod Paths
pub mod Members
pub mod Static
pub mod Answers
pub mod Connected
pub mod Identity
pub mod Requests
pub mod Samples
mod Tests
use certos.Base.{
  ℕ, Bool, true, false, List, [], ◌∷◌, ◌++◌, Option, none, some, Text, txt, if◌then◌else◌, is_empty,
  nat_beq, ◌==◌, text_eq, ℤ,
}
use certos.Messages.{JobRequest}
use certos.Config.{GatewayConfig}
use certos.Gateway.{Method, Route, Action, handle, public_request}
use certos.Gateway.Json.{Json, Try, threw, got, ◌>>=◌, object, with_members, item}
use certos.Gateway.Bridge.{MasterStub, failure_json}
use certos.Gateway.Bridge.Calls
unfoldable pub use Paths.*

pub data Status : Type 0 where
  ok no_content bad_request not_found internal_server_error : Status

-- The body, and the headers by name.
pub record Response : Type 0 where
  pub status : Status
  pub headers : List (Text × Text)
  pub body : Text

-- `read` gives the content of what exists and is no directory. `save` makes the directory of uploads and
-- writes a file; it gives what is thrown, if it fails.
pub record Files (F : Type 0) : Type 0 where
  pub read : Text → F → Option Text
  pub save : Text → Text → F → F × Option Text

-- The headers of every answer below "/api/".
abbrev pub api_headers : Text → List (Text × Text)
api_headers origin =
    (txt "Access-Control-Allow-Origin", origin)
    ∷ (txt "Access-Control-Allow-Methods", txt "GET, POST, PUT, DELETE, OPTIONS")
    ∷ (txt "Access-Control-Allow-Headers", txt "Content-Type, Authorization")
    ∷ (txt "Server", txt "CertOS Gateway")
    ∷ (txt "Content-Type", txt "application/json")
    ∷ []

abbrev pub api_response : Text → Status → Text → Response
api_response origin status body = record {
  status = status;
  headers = api_headers origin;
  body = body;
}

abbrev pub plain : Status → Text → Response
plain status body = record { status = status; headers = []; body = body }

abbrev pub upload_path : Text → Text
upload_path req_id = txt "./uploads/" ++ (req_id ++ txt ".tar.gz")

module _ (js : Json) where
  open js use {Object, of_text, as_string, as_bool, as_int64}

  -- `body["key"].as_string()` and `body["key"].as_int64()`
  abbrev pub text_at : Text → Object → Try Text
  text_at key body = as_string (item js key body)

  abbrev pub int_at : Text → Object → Try ℤ
  int_at key body = as_int64 (item js key body)

  abbrev pub container_of : Object → Try (Option Text)
  container_of body = elim (js.member (txt "container") body) [
    | none ↦ got none
    | some v ↦ as_string v >>= λ image. got (some image)
  ]

  unfoldable pub read_request : Object → Try JobRequest
  unfolding public_request
  read_request body = do
    name ← text_at (txt "name") body
    email ← text_at (txt "email") body
    goal ← text_at (txt "goal") body
    cpu ← int_at (txt "cpu") body
    ram ← int_at (txt "ram") body
    time ← int_at (txt "time") body
    container ← container_of body
    got (public_request name email goal cpu ram time container)

  -- Which of the two throws first, when both do, is not said by the source.
  unfoldable pub read_review : Object → Try (Bool × Text)
  read_review body = do
    approve ← as_bool (item js (txt "approve") body)
    comment ← text_at (txt "comment") body
    got (approve, comment)

  -- The answer to an upload, by the bridge's.
  unfoldable pub upload_json : Object → Try Object
  upload_json update_res = do
    success ← as_bool (item js (txt "success") update_res)
    got (
        with_members js js.empty (
          (txt "success", item js (txt "success") update_res)
          ∷ (if success
              then (txt "message", of_text (txt "File uploaded and linked successfully"))
              else (txt "error", item js (txt "error") update_res))
          ∷ []))

module _ (js : Json) {M F : Type 0} (stub : MasterStub M) (files : Files F) where
  open js use {Object, parse, serialize}

  abbrev pub State : Type 0
  State = M × F

  -- A call without exceptions, and one for what was read before.
  abbrev pub answered : M × Object → F → State × Try Object
  answered (m, o) f = ((m, f), got o)

  abbrev pub tried : M × Try Object → F → State × Try Object
  tried (m, o) f = ((m, f), o)

  abbrev pub after :
      {A : Type 0} → Try A → (A → State → State × Try Object) → State → State × Try Object
  after (threw what) k s = (s, threw what)
  after (got a) k s = k a s

  unfoldable pub upload : Text → Text → State → State × Try Object
  unfolding upload_json
  upload req_id content (m, f) =
      let (f', failed) = files.save (upload_path req_id) content f in
      elim failed [
        | some what ↦ ((m, f'), threw what)
        | none ↦
            let (m', update_res) =
              Calls.update_request_archive js stub req_id (upload_path req_id) m in
            ((m', f'), upload_json js update_res)
      ]

  -- The body of the `try` block, but for the last branch.
  unfoldable pub perform : Text → Route → Text → State → State × Try Object
  unfolding read_request read_review upload
  perform token Route.login body s =
      after (parse body) (λ o (m, f). tried (Calls.login js stub o m) f) s
  perform token Route.submit_public_request body s =
      after (parse body >>= read_request js)
        (λ req (m, f). answered (Calls.submit_public_request js stub req m) f) s
  perform token (Route.upload req_id) body s = upload req_id body s
  perform token Route.get_cluster_status body (m, f) =
      answered (Calls.get_cluster_status js stub token m) f
  perform token Route.list_nodes body (m, f) = answered (Calls.list_nodes js stub token m) f
  perform token Route.list_jobs body (m, f) = answered (Calls.list_jobs js stub token m) f
  perform token Route.submit_job body s =
      after (parse body) (λ o (m, f). tried (Calls.submit_job js stub token o m) f) s
  perform token (Route.cancel_job job_id) body (m, f) =
      answered (Calls.cancel_job js stub token job_id m) f
  perform token Route.admin_list_requests body (m, f) =
      answered (Calls.admin_list_requests js stub token m) f
  perform token (Route.admin_review_request req_id) body s =
      after (parse body >>= read_review js)
        (λ (approve, comment) (m, f).
          answered (Calls.admin_review_request js stub token req_id approve comment m) f)
        s
  perform token Route.admin_list_users body (m, f) =
      answered (Calls.admin_list_users js stub token m) f
  perform token Route.create_user body s =
      after (parse body) (λ o (m, f). tried (Calls.create_user js stub token o m) f) s
  perform token (Route.admin_delete_user uname) body (m, f) =
      answered (Calls.admin_delete_user js stub token uname m) f
  perform token (Route.not_found path) body s =
      (s, got (failure_json js (txt "Route not found: " ++ path)))

  abbrev pub status_of : Route → Status
  status_of (Route.not_found path) = not_found
  status_of _ = ok

  -- The `catch`: an answer with the exception's text. Nothing was set before, wherever it is thrown.
  unfoldable pub api : Text → Text → Route → Text → State → State × Response
  unfolding perform
  api origin token route body s =
      let (s', result) = perform token route body s in
      (
        s',
        elim result [
          | got o ↦ api_response origin (status_of route) (serialize o)
          | threw what ↦
              api_response origin internal_server_error
                (serialize (failure_json js (txt "Internal error: " ++ what)))
        ],
      )

  unfoldable pub serve_file : Text → Text → F → Response
  unfolding join extension content_type
  serve_file web_root path f = elim (files.read (join web_root path) f) [
    | none ↦ plain not_found (txt "404 Not Found")
    | some content ↦ record {
      status = ok;
      headers = (txt "Content-Type", content_type (extension (join web_root path))) ∷ [];
      body = content;
    }
  ]

  -- What becomes of a request, by what `handle` makes of its head.
  unfoldable pub act : GatewayConfig → Action → Text → State → State × Response
  unfolding api serve_file
  act config Action.no_content body s = (s, plain no_content [])
  act config Action.preflight body s = (s, api_response config.cors_origin ok [])
  act config (Action.static_file path) body (m, f) = ((m, f), serve_file config.web_root path f)
  act config (Action.call token route) body s = api config.cors_origin token route body s

  unfoldable pub respond :
      GatewayConfig → Method → Text → Option Text → Text → State → State × Response
  unfolding handle act
  respond config method target authorization body s =
      act config (handle method target authorization) body s
