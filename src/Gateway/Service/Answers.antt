-- ===== src/Gateway/Service/Answers.antt =====
-- What an answer says about what was done.
use certos.Base.{
  true, false, [], ◌∷◌, Bool, Option, ◌≡◌, ◌≢◌, ◌⊎◌, inl, inr, refl, ◌∙◌, ap, Text, txt,
  Option-cases, Bool-cases, text_beq, arith,
}
use certos.Config.{GatewayConfig}
use certos.Master.Rpc.{StatusResponse}
use certos.Gateway.{Method, Route, Action, handle}
use certos.Gateway.Json.{Json, IsJson, Try, threw, got, ◌>>=◌, object, item}
use certos.Gateway.Bridge.{MasterStub, Reply, replied, failed, outcome_json}
use certos.Gateway.Bridge.Calls.{
  calls, login, submit_job, create_user, update_request_archive, submit_public_request,
  admin_review_request,
}
use certos.Gateway.Service.Members.{item-set, failure_says}
use certos.Gateway.Service.{
  Files, internal_server_error, State, after, answered, status_of, perform, upload, upload_path,
  read_request, read_review, upload_json, api, act, respond,
}

Try-cases : {A : Type 0} (t : Try A) → ((what : Text) × (t ≡ threw what)) ⊎ ((a : A) × (t ≡ got a))
Try-cases (threw what) = inl (what, refl)
Try-cases (got a) = inr (a, refl)

module _ (js : Json) (laws : IsJson js) {M F : Type 0} (stub : MasterStub M) (files : Files F) where
  open js use {Object, of_bool}

  -- A call that throws leaves the master as it was.
  abbrev Keeps : M → State js stub files × Try Object → Type 0
  Keeps m r = (what : Text) → r.1 ≡ threw what → r.0.0 ≡ m

  abbrev CallKeeps : M → M × Try Object → Type 0
  CallKeeps m r = (what : Text) → r.1 ≡ threw what → r.0 ≡ m

  calls-CallKeeps :
      {A : Type 0} (t : Try A) (k : A → M × Object) (m : M) → CallKeeps m (calls js t k m)
  calls-CallKeeps (threw w) k m what e = refl
  calls-CallKeeps (got a) k m what e = absurd cc

  answered-Keeps : (r : M × Object) (f : F) (m : M) → Keeps m (answered js stub files r f)
  answered-Keeps r f m what e = absurd cc

  after-Keeps :
      {A : Type 0} (t : Try A) (k : A → State js stub files → State js stub files × Try Object)
      (s : State js stub files)
      → ((a : A) → Keeps s.0 (k a s))
      → Keeps s.0 (after js stub files t k s)
  after-Keeps (threw w) k s h what e = refl
  after-Keeps (got a) k s h what e = h a what e

  success_says :
      item js (txt "success") (object js ((txt "success", of_bool true) ∷ [])) ≡ of_bool true
  unfolding text_beq
  success_says = item-set js laws (txt "success") (txt "success") (of_bool true) js.empty

  -- What the bridge answers to an upload says whether it succeeded.
  upload_says :
      (status : Reply StatusResponse)
      → (b : Bool) × (item js (txt "success") (outcome_json js (λ res. []) status) ≡ of_bool b)
  upload_says (failed message) = (false, failure_says js laws message)
  upload_says (replied res) = elim (Bool-cases res.success) [
    | inl e ↦ (true, rw e success_says)
    | inr e ↦ (false, rw e (failure_says js laws res.message))
  ]

  upload_json_got :
      (status : Reply StatusResponse) (what : Text)
      → upload_json js (outcome_json js (λ res. []) status) ≢ threw what
  unfolding upload_json
  upload_json_got status what e =
      let (b, says) = upload_says status in
      let read = ap js.as_bool says ∙ laws.as_bool-of_bool b in let bad = rw read at e in absurd cc

  upload-Keeps :
      (req_id content : Text) (s : State js stub files)
      → Keeps s.0 (upload js stub files req_id content s)
  unfolding upload update_request_archive
  upload-Keeps req_id content (m, f) what e =
      elim (Option-cases (files.save (upload_path req_id) content f).1) [
        | inr (w, unsaved) ↦ rw (unsaved, upload) refl
        | inl saved ↦ absurd (upload_json_got _ what (rw (saved, upload) at e))
      ]

  perform-Keeps :
      (token : Text) (route : Route) (body : Text) (s : State js stub files)
      → Keeps s.0 (perform js stub files token route body s)
  unfolding perform login submit_job create_user
  perform-Keeps token Route.login body s what e =
      after-Keeps (js.parse body) _ s (λ o. calls-CallKeeps _ _ s.0) what e
  perform-Keeps token Route.submit_public_request body s what e =
      after-Keeps (js.parse body >>= read_request js)
        (λ req t. answered js stub files (submit_public_request js stub req t.0) t.1) s
        (λ req. answered-Keeps (submit_public_request js stub req s.0) s.1 s.0) what e
  perform-Keeps token (Route.upload req_id) body s what e = upload-Keeps req_id body s what e
  perform-Keeps token Route.get_cluster_status body s what e = absurd cc
  perform-Keeps token Route.list_nodes body s what e = absurd cc
  perform-Keeps token Route.list_jobs body s what e = absurd cc
  perform-Keeps token Route.submit_job body s what e =
      after-Keeps (js.parse body) _ s (λ o. calls-CallKeeps _ _ s.0) what e
  perform-Keeps token (Route.cancel_job job_id) body s what e = absurd cc
  perform-Keeps token Route.admin_list_requests body s what e = absurd cc
  perform-Keeps token (Route.admin_review_request req_id) body s what e =
      after-Keeps (js.parse body >>= read_review js)
        (λ (approve, comment) t.
          answered js stub files (admin_review_request js stub token req_id approve comment t.0)
            t.1)
        s
        (λ (approve, comment).
          answered-Keeps (admin_review_request js stub token req_id approve comment s.0) s.1 s.0)
        what e
  perform-Keeps token Route.admin_list_users body s what e = absurd cc
  perform-Keeps token Route.create_user body s what e =
      after-Keeps (js.parse body) _ s (λ o. calls-CallKeeps _ _ s.0) what e
  perform-Keeps token (Route.admin_delete_user uname) body s what e = absurd cc
  perform-Keeps token (Route.not_found path) body s what e = absurd cc

  answer_status : (route : Route) → status_of js stub files route ≢ internal_server_error
  answer_status route e = ground arith

  api_cases :
      (origin token body : Text) (route : Route) (s : State js stub files)
      → let r = api js stub files origin token route body s in
        r.1.status ≡ internal_server_error → r.0.0 ≡ s.0
  unfolding api
  api_cases origin token body route s e =
      elim (Try-cases (perform js stub files token route body s).1) [
        | inl (what, t) ↦ perform-Keeps token route body s what t
        | inr (o, t) ↦ absurd (answer_status route (rw (t, api) at e))
      ]

  acted :
      (config : GatewayConfig) (action : Action) (body : Text) (s : State js stub files)
      → let r = act js stub files config action body s in
        r.1.status ≡ internal_server_error → r.0.0 ≡ s.0
  unfolding act
  acted config Action.no_content body s e = refl
  acted config Action.preflight body s e = refl
  acted config (Action.static_file path) body s e = refl
  acted config (Action.call token route) body s e =
      api_cases config.cors_origin token body route s e

  -- An answer with the status 500 says that nothing was done at the master: whatever the request, and
  -- whatever throws, the master is as it was before.
  pub internal_error_changes_nothing :
      (config : GatewayConfig) (method : Method) (target : Text) (authorization : Option Text)
      (body : Text) (s : State js stub files)
      → let r = respond js stub files config method target authorization body s in
        r.1.status ≡ internal_server_error → r.0.0 ≡ s.0
  unfolding respond
  internal_error_changes_nothing config method target authorization body s e =
      acted config (handle method target authorization) body s e
