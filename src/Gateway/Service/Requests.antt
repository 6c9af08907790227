-- ===== src/Gateway/Service/Requests.antt =====
-- Archives and reviews of public requests, from the gateway to the master.
use certos.Base.{
  ℕ, false, [], ◌∷◌, ◌++◌, Bool, Option, none, ◌≡◌, refl, ◌∙◌, ap, Text, txt, starts_with, find,
}
use certos.Config.{GatewayConfig}
use certos.Master.KeyValue.{KvStore}
use certos.Master.RequestStore.{RequestStore, RequestJson}
use certos.Master.Rpc.{Result, not_found}
use certos.Master.Requests.{update_job_request, admin_review_request, says}
use certos.Gateway.{post, Route, Action, route, handle, bearer_token, ends_in_slash}
use certos.Gateway.Cuts.{NoSlash}
use certos.Gateway.Paths.{handle_call, normalize_other}
use certos.Gateway.Routing.{upload_keeps_slash, review_drops_first}
use certos.Gateway.Json.{Json, IsJson, got, ◌>>=◌}
use certos.Gateway.Bridge.{failure_json}
use certos.Gateway.Bridge.Calls
use certos.Gateway.Service.{
  Files, ok, api_response, api, perform, upload, upload_json, upload_path, read_review, act,
  respond,
}
use certos.Gateway.Service.Members.{failure_says, error_says}
use certos.Gateway.Service.Connected.{Master, Readings, connected}

ends_in_slash-word :
    (id : Text) (c : ℕ) (w : Text) → ends_in_slash (id ++ c ∷ w) ≡ ends_in_slash (c ∷ w)
unfolding ends_in_slash
ends_in_slash-word [] c w = refl
ends_in_slash-word (a ∷ []) c w = refl
ends_in_slash-word (a ∷ b ∷ id) c w = ends_in_slash-word (b ∷ id) c w

-- How the gateway takes the upload for an id, and the review of one.
upload_handled :
    (id : Text) (authorization : Option Text)
    → NoSlash id
    → starts_with id (txt "upload") ≡ false
    → handle post (txt "/api/v1/public/request/" ++ id ++ txt "/upload") authorization
      ≡ Action.call (bearer_token authorization) (Route.upload (b'/' ∷ id))
unfolding starts_with ends_in_slash
upload_handled id authorization h e =
    let path = txt "/api/v1/public/request/" ++ id ++ txt "/upload" in
    let whole =
      normalize_other path
        (ends_in_slash-word (txt "/api/v1/public/request/" ++ id) b'/' (txt "upload")) in
    handle_call post path authorization refl refl
    ∙ ap (λ p. Action.call (bearer_token authorization) (route post p)) whole
    ∙ ap (Action.call (bearer_token authorization)) (upload_keeps_slash id h e)

review_handled :
    (c : ℕ) (id : Text) (authorization : Option Text)
    → NoSlash (c ∷ id)
    → starts_with (c ∷ id) (txt "review") ≡ false
    → handle post (txt "/api/v1/admin/requests/" ++ c ∷ id ++ txt "/review") authorization
      ≡ Action.call (bearer_token authorization) (Route.admin_review_request id)
unfolding starts_with ends_in_slash
review_handled c id authorization h e =
    let path = txt "/api/v1/admin/requests/" ++ c ∷ id ++ txt "/review" in
    let whole =
      normalize_other path
        (ends_in_slash-word (txt "/api/v1/admin/requests/" ++ c ∷ id) b'/' (txt "review")) in
    handle_call post path authorization refl refl
    ∙ ap (λ p. Action.call (bearer_token authorization) (route post p)) whole
    ∙ ap (Action.call (bearer_token authorization)) (review_drops_first c id h e)

module _ (js : Json) (laws : IsJson js) (kv : KvStore) (rs : RequestStore) (rj : RequestJson)
    {F : Type 0} (files : Files F) where
  -- The master knows no such request.
  update_unknown :
      (id archive : Text) (st : rs.Store)
      → find id (rs.list_requests st) ≡ none
      → update_job_request rs rj id archive st ≡ (st, says false (txt "Request not found"))
  unfolding update_job_request
  update_unknown id archive st e = rw (e, update_job_request) refl

  upload_json_failure :
      (message : Text) → upload_json js (failure_json js message) ≡ got (failure_json js message)
  unfolding upload_json
  upload_json_failure message =
      let read = ap js.as_bool (failure_says js laws message) ∙ laws.as_bool-of_bool false in
      rw (read, failure_says js laws message, error_says js laws message, upload_json) refl

  upload_performed :
      (r : Readings) (token id content : Text) (m : Master kv rs) (f : F)
      → (files.save (upload_path id) content f).1 ≡ none
      → find id (rs.list_requests m.requests) ≡ none
      → perform js (connected kv rs rj r) files token (Route.upload id) content (m, f) ≡ (
        (m, (files.save (upload_path id) content f).0),
        got (failure_json js (txt "Request not found")),
      )
  unfolding perform upload Calls.update_request_archive connected
  upload_performed r token id content m f saved e =
      rw
        (
          saved,
          update_unknown id (upload_path id) m.requests e,
          upload_json_failure (txt "Request not found"),
          perform,
          upload,
        )
        refl

  -- An uploaded archive is not linked to its request. A POST to /api/v1/public/request/<id>/upload asks
  -- the master about the id with a slash before it. So, where the file ./uploads//<id>.tar.gz can be
  -- written, and the master lists no request under the id with the slash, the body is written to that
  -- file, the answer is the failure "Request not found", and the master is as it was, whether or not it
  -- has a request under <id>. This is of an id without a slash that does not begin with "upload".
  pub archive_not_linked :
      (config : GatewayConfig) (r : Readings) (id content : Text) (authorization : Option Text)
      (m : Master kv rs) (f : F)
      → NoSlash id
      → starts_with id (txt "upload") ≡ false
      → (files.save (upload_path (b'/' ∷ id)) content f).1 ≡ none
      → find (b'/' ∷ id) (rs.list_requests m.requests) ≡ none
      → respond js
          (connected kv rs rj r)
          files
          config
          post
          (txt "/api/v1/public/request/" ++ id ++ txt "/upload")
          authorization
          content
          (m, f)
        ≡ (
          (m, (files.save (upload_path (b'/' ∷ id)) content f).0),
          api_response config.cors_origin ok
              (js.serialize (failure_json js (txt "Request not found"))),
        )
  unfolding respond
  archive_not_linked config r id content authorization m f h e saved unknown =
      rw (upload_handled id authorization h e, act, api)
        (rw
          (
            upload_performed r (bearer_token authorization) (b'/' ∷ id) content m f saved unknown,
            api,
          )
          refl)

  review_unknown :
      (r : Readings) (id comment : Text) (approve : Bool) (m : Master kv rs)
      → find id (rs.list_requests m.requests) ≡ none
      → admin_review_request rs rj kv r.draw r.now r.now_job id approve comment m.requests m.jobs
        ≡ ((m.requests, m.jobs), Result.error not_found (txt "Request not found"))
  unfolding admin_review_request
  review_unknown r id comment approve m e = rw (e, admin_review_request) refl

  review_performed :
      (r : Readings) (token id body comment : Text) (approve : Bool) (m : Master kv rs) (f : F)
      → (js.parse body >>= read_review js) ≡ got (approve, comment)
      → find id (rs.list_requests m.requests) ≡ none
      → perform js (connected kv rs rj r) files token (Route.admin_review_request id) body (m, f)
        ≡ ((m, f), got (failure_json js (txt "Request not found")))
  unfolding perform Calls.admin_review_request connected
  review_performed r token id body comment approve m f reads e =
      rw (reads, review_unknown r id comment approve m e, perform) refl

  -- A review does not reach its request. A POST to /api/v1/admin/requests/<id>/review whose body can be
  -- read asks the master about the id without its first character; unless there is a request under
  -- that, the answer is the failure "Request not found", and nothing changes. (This is of an id without
  -- a slash that does not begin with "review".)
  pub review_not_delivered :
      (config : GatewayConfig) (r : Readings) (c : ℕ) (id body comment : Text) (approve : Bool)
      (authorization : Option Text) (m : Master kv rs) (f : F)
      → NoSlash (c ∷ id)
      → starts_with (c ∷ id) (txt "review") ≡ false
      → (js.parse body >>= read_review js) ≡ got (approve, comment)
      → find id (rs.list_requests m.requests) ≡ none
      → respond js
          (connected kv rs rj r)
          files
          config
          post
          (txt "/api/v1/admin/requests/" ++ c ∷ id ++ txt "/review")
          authorization
          body
          (m, f)
        ≡ (
          (m, f),
          api_response config.cors_origin ok
              (js.serialize (failure_json js (txt "Request not found"))),
        )
  unfolding respond
  review_not_delivered config r c id body comment approve authorization m f h e reads unknown =
      rw (review_handled c id authorization h e, act, api)
        (rw
          (
            review_performed r (bearer_token authorization) id body comment approve m f reads
                unknown,
            api,
          )
          refl)
