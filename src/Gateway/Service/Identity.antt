-- ===== src/Gateway/Service/Identity.antt =====
-- From a login at the gateway to a job of that user at the master.
use certos.Base.{
  ℕ, true, false, [], ◌∷◌, ◌++◌, none, some, ◌≡◌, refl, ◌∙◌, Text, txt, text_beq, inl, inr,
  starts_with, find_text,
}
use certos.Config.{GatewayConfig}
use certos.Messages.{JobSpec}
use certos.Master.KeyValue.{KvStore}
use certos.Master.RequestStore.{RequestStore, RequestJson}
use certos.Master.Jobs.{JobManager, submitted_info, submit_job, get_job}
use certos.Master.Rpc.{Result}
use certos.Master.Accounts.{user_key, grant, login}
use certos.Master.Accounts.Login.{login_iff}
use certos.Master.JobCalls.{submit_job_call}
use certos.Master.JobCalls.Submission.{username_of-token, submitted_found}
use certos.Gateway.{Method, post, Route, Action, route, normalize, handle, bearer_token}
use certos.Gateway.Paths.{handle_token}
use certos.Gateway.Json.{Json, IsJson, got, object, optional_text}
use certos.Gateway.Bridge.{replied, login_json, submit_job_json, submitted_spec}
use certos.Gateway.Bridge.Calls.{credentials, spec_of}
use certos.Gateway.Bridge.Calls
use certos.Gateway.Service.{Files, ok, api_response, api, perform, act, respond}
use certos.Gateway.Service.Connected.{Master, Readings, connected}

module _ (js : Json) (laws : IsJson js) where
  open js use {of_text, Value, serialize}

  -- An object with two texts.
  abbrev pub pair : Text → Text → Text → Text → js.Object
  pair key a key' b = object js ((key, of_text a) ∷ (key', of_text b) ∷ [])

  -- A text that was set is read.
  text_set :
      (key v : Text) (o : js.Object)
      → text_beq key key ≡ true
      → optional_text js key (js.set key (of_text v) o) ≡ got v
  text_set key v o same =
      rw (laws.member-set key key (of_text v) o, same, optional_text) (laws.value_to_text-of_text v)

  text_set_other :
      (key j v : Text) (o : js.Object)
      → text_beq key j ≡ false
      → optional_text js j (js.set key (of_text v) o) ≡ optional_text js j o
  text_set_other key j v o differ =
      rw (laws.member-set key j (of_text v) o, differ, optional_text) refl

  pair_read :
      (key a key' b : Text)
      → text_beq key key ≡ true
      → text_beq key' key' ≡ true
      → text_beq key' key ≡ false
      → (optional_text js key (pair key a key' b) ≡ got a)
        × (optional_text js key' (pair key a key' b) ≡ got b)
  pair_read key a key' b same same' differ = (
    text_set_other key' key b (object js ((key, of_text a) ∷ [])) differ
        ∙ text_set key a js.empty same,
    text_set key' b (object js ((key, of_text a) ∷ [])) same',
  )

  credentials_of :
      (u password : Text)
      → credentials js (pair (txt "username") u (txt "password") password)
        ≡ got (record { username = u; password = password })
  unfolding credentials text_beq
  credentials_of u password =
      let (first, second) = pair_read (txt "username") u (txt "password") password refl refl refl in
      rw (first, second, credentials) refl

  spec_of_lem :
      (name command : Text)
      → spec_of js (pair (txt "name") name (txt "command") command)
        ≡ got (submitted_spec name command)
  unfolding spec_of text_beq
  spec_of_lem name command =
      let (first, second) = pair_read (txt "name") name (txt "command") command refl refl refl in
      rw (first, second, spec_of) refl

login_handled : handle post (txt "/api/v1/auth/login") none ≡ Action.call [] Route.login
unfolding handle certos.Gateway.found_at_start find_text text_beq
login_handled = refl

submit_handled :
    (token : Text)
    → handle post (txt "/api/v1/jobs") (some (txt "Bearer " ++ token))
      ≡ Action.call token Route.submit_job
unfolding starts_with route normalize text_beq certos.Gateway.found_at_start find_text
submit_handled token = handle_token post (txt "/api/v1/jobs") token refl refl

submit_call :
    (kv : KvStore) (draw : ℕ → ℕ) (now : ℕ) (u : Text) (spec : JobSpec) (s : JobManager kv.Store)
    → let (jobs, id) = submit_job kv draw now spec u u s in
      submit_job_call kv draw now (some (txt "Bearer mock-jwt-for-" ++ u)) spec s
      ≡ (jobs, Result.ok (submitted_info id now spec u u))
unfolding submit_job_call
submit_call kv draw now u spec s =
    rw (username_of-token u, submit_job_call)
      (rw (submitted_found kv draw now u spec s, submit_job_call) refl)

login_granted :
    (kv : KvStore) (u password : Text) (st : kv.Store)
    → kv.get_kv st (user_key u) ≡ some password
    → login kv u password st ≡ Result.ok (grant kv st u)
login_granted kv u password st e = elim (login_iff kv u password st) [
  | inl (_, h) ↦ h
  | inr (ne, _) ↦ absurd (ne e)
]

module _ (js : Json) (laws : IsJson js) (kv : KvStore) (rs : RequestStore) (rj : RequestJson)
    {F : Type 0} (files : Files F) where
  login_performed :
      (r : Readings) (token u password : Text) (m : Master kv rs) (f : F)
      → kv.get_kv m.accounts (user_key u) ≡ some password
      → laws.IsWritable (pair js laws (txt "username") u (txt "password") password)
      → perform js
          (connected kv rs rj r)
          files
          token
          Route.login
          (js.serialize (pair js laws (txt "username") u (txt "password") password))
          (m, f)
        ≡ ((m, f), got (login_json js (replied (grant kv m.accounts u))))
  unfolding perform Calls.login connected
  login_performed r token u password m f e w =
      rw
        (
          laws.parse-serialize (pair js laws (txt "username") u (txt "password") password) w,
          credentials_of js laws u password,
          login_granted kv u password m.accounts e,
        )
        refl

  submit_performed :
      (r : Readings) (u name command : Text) (m : Master kv rs) (f : F)
      → laws.IsWritable (pair js laws (txt "name") name (txt "command") command)
      → let spec = submitted_spec name command in
        let (jobs, id) = submit_job kv r.draw r.now spec u u m.jobs in
        perform js
          (connected kv rs rj r)
          files
          (txt "mock-jwt-for-" ++ u)
          Route.submit_job
          (js.serialize (pair js laws (txt "name") name (txt "command") command))
          (m, f)
        ≡ (
          (record m { jobs = jobs }, f),
          got (submit_job_json js (replied (submitted_info id r.now spec u u))),
        )
  unfolding perform Calls.submit_job connected
  submit_performed r u name command m f w =
      let spec = submitted_spec name command in
      rw
        (
          laws.parse-serialize (pair js laws (txt "name") name (txt "command") command) w,
          spec_of_lem js laws name command,
          submit_call kv r.draw r.now u spec m.jobs,
        )
        refl

  -- From a login to a job of that user. For an account of the master, a POST to /api/v1/auth/login with
  -- its name and password is answered with the account's token and role, and nothing changes; a POST to
  -- /api/v1/jobs with that token is answered with the id of a job that is then in the master's table,
  -- queued, of that user, with the name and command of the body, one core and 1024 MB. This is of bodies
  -- that the parser of JSON reads back.
  pub login_then_submit :
      (config : GatewayConfig) (r r' : Readings) (u password name command : Text) (m : Master kv rs)
      (f : F)
      → kv.get_kv m.accounts (user_key u) ≡ some password
      → laws.IsWritable (pair js laws (txt "username") u (txt "password") password)
      → laws.IsWritable (pair js laws (txt "name") name (txt "command") command)
      → let token = grant kv m.accounts u in
        let spec = submitted_spec name command in
        let (jobs, id) = submit_job kv r'.draw r'.now spec u u m.jobs in
        let info = submitted_info id r'.now spec u u in
        (respond js
            (connected kv rs rj r)
            files
            config
            post
            (txt "/api/v1/auth/login")
            none
            (js.serialize (pair js laws (txt "username") u (txt "password") password))
            (m, f)
          ≡ (
            (m, f),
            api_response config.cors_origin ok (js.serialize (login_json js (replied token))),
          ))
        × (respond js
              (connected kv rs rj r')
              files
              config
              post
              (txt "/api/v1/jobs")
              (some (txt "Bearer " ++ token.access_token))
              (js.serialize (pair js laws (txt "name") name (txt "command") command))
              (m, f)
            ≡ (
              (record m { jobs = jobs }, f),
              api_response config.cors_origin ok (js.serialize (submit_job_json js (replied info))),
            ))
        × (get_job id jobs ≡ some info)
  unfolding respond
  login_then_submit config r r' u password name command m f e w w' = (
    rw (login_handled, act, api) (rw (login_performed r [] u password m f e w, api) refl),
    rw (submit_handled (txt "mock-jwt-for-" ++ u), act, api)
        (rw (submit_performed r' u name command m f w', api) refl),
    submitted_found kv r'.draw r'.now u (submitted_spec name command) m.jobs,
  )
