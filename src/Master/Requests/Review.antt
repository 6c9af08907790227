-- ===== src/Master/Requests/Review.antt =====
-- From a public request to a job.
use certos.Base.{
  ℕ, Bool, true, false, none, some, ◌≡◌, refl, ap, ◌∙◌, Text, find, is_empty, if◌then◌else◌, txt,
  text_beq, text_beq_refl, subst,
}
use certos.Messages.{JobRequest}
use certos.Master.KeyValue.{KvStore}
use certos.Master.Jobs.{JobManager, submit_job, submitted_info, get_job, new_job_id}
use certos.Master.Jobs.Updates.{get_job-submit_job}
use certos.Master.RequestStore.{RequestStore, RequestJson, NoNul}
use certos.Master.Requests.{
  received, reviewed, says, store_request, submit_public_request, submit_approved, verdict,
  store_review, admin_review_request, request_status_number,
}

module _ (rs : RequestStore) (js : RequestJson) where
  open rs use {Store, add_job_request, list_requests, IsReady}
  open js use {print, parse, IsPrintable}

  -- The store has the request under its id.
  pub record Stores (st : Store) (req : JobRequest) : Type 0 where
    pub json : Text
    pub listed : find req.request_id (list_requests st) ≡ some json
    pub present : is_empty json ≡ false
    pub parsed : parse json ≡ (req, true)
    pub ready : IsReady st
    pub no_nul : NoNul req.request_id

  pub submitted_Stores :
      (now number : ℕ) (request : JobRequest) (st : Store)
      → IsReady st
      → let req = received now number request in
        find req.request_id (list_requests st) ≡ none
        → NoNul req.request_id
        → NoNul req.applicant_email
        → IsPrintable req
        → let r = submit_public_request rs js now number request st in
          (r.1 ≡ says true req.request_id) × Stores r.0 req
  unfolding submit_public_request
  submitted_Stores now number request st ready fresh i a p =
      let req = received now number request in
      let (json, printed, parsed, full, t) = js.print-parse req p in
      let n = request_status_number req.status in
      let added = rs.add_true st req.request_id req.applicant_email n json ready i a t fresh in
      let listed =
        rs.add-list st req.request_id req.applicant_email n json req.request_id ready i a t fresh
        ∙ ap (λ b. if b then some json else find req.request_id (list_requests st))
            (text_beq_refl req.request_id) in
      let ready' = rs.add-IsReady st req.request_id req.applicant_email n json ready i a t fresh in
      rw (printed, submit_public_request)
        (rw added (
          refl,
          record {
            json = json;
            listed = listed;
            present = full;
            parsed = parsed;
            ready = ready';
            no_nul = i;
          },
        ))

  -- A printed request that replaces the one with its id.
  store_request-Stores :
      (st : Store) (old req : JobRequest) (json : Text)
      → Stores st old
      → old.request_id ≡ req.request_id
      → is_empty json ≡ false
      → NoNul json
      → parse json ≡ (req, true)
      → Stores (store_request rs js req json st) req
  store_request-Stores st old req json h same full t e =
      let listed = subst (λ id. find id (list_requests st) ≡ some h.json) same h.listed in
      let number = request_status_number req.status in
      let plain = subst NoNul same h.no_nul in
      record {
        json = json;
        listed =
            rs.update-list st req.request_id number json req.request_id h.json h.ready plain t
              listed
            ∙ ap (λ b. if b then some json else find req.request_id (list_requests st))
                (text_beq_refl req.request_id);
        present = full;
        parsed = e;
        ready = rs.update-IsReady st req.request_id number json h.json h.ready plain t listed;
        no_nul = plain;
      }

  module _ (kv : KvStore) where
    store_review_printed :
        (approve : Bool) (req : JobRequest) (json : Text) (st : Store) (s : JobManager kv.Store)
        → print req ≡ some json
        → store_review rs js kv approve req st s
          ≡ ((store_request rs js req json st, s), says true (verdict rs js kv approve))
    unfolding store_review
    store_review_printed approve req json st s e = rw (e, store_review) refl

    -- Reviewing a stored request, whatever its status: the answer says so, the store then has the
    -- reviewed request, and the job table is that after the submission of the job, if approved.
    review_stored :
        (draw : ℕ → ℕ) (now now_job : ℕ) (approve : Bool) (comment : Text) (req : JobRequest)
        (st : Store) (s : JobManager kv.Store)
        → Stores st req
        → IsPrintable (reviewed now approve comment req)
        → let r =
            admin_review_request rs js kv draw now now_job req.request_id approve comment st s in
          (r.1 ≡ says true (verdict rs js kv approve))
          × (r.0.1 ≡ submit_approved rs js kv draw now_job approve req s)
          × Stores r.0.0 (reviewed now approve comment req)
    unfolding admin_review_request
    review_stored draw now now_job approve comment req st s h p =
        let (json, printed, parsed, full, t) =
          js.print-parse (reviewed now approve comment req) p in
        let stored =
          store_request-Stores st req (reviewed now approve comment req) json h refl full t
            parsed in
        let stores =
          store_review_printed approve (reviewed now approve comment req) json st
            (submit_approved rs js kv draw now_job approve req s) printed in
        rw (h.listed, h.present, h.parsed) (rw stores (refl, refl, stored))

    submitted_found :
        (draw : ℕ → ℕ) (now : ℕ) (req : JobRequest) (s : JobManager kv.Store)
        → get_job (new_job_id draw) (submit_approved rs js kv draw now true req s)
          ≡ some (
              submitted_info
                (new_job_id draw)
                now
                req.requested_spec
                (txt "public-user")
                req.applicant_name)
    unfolding submit_approved submit_job
    submitted_found draw now req s =
        let info =
          submitted_info (new_job_id draw) now req.requested_spec (txt "public-user")
            req.applicant_name in
        get_job-submit_job kv draw now req.requested_spec (txt "public-user") req.applicant_name s
          (new_job_id draw)
        ∙ ap (λ b. if b then some info else get_job (new_job_id draw) s)
            (text_beq_refl (new_job_id draw))

    -- A public request becomes a job: when a request with an unused id is received and its review
    -- then approves it, both are answered with success, and the job manager has a queued job with
    -- the specification that was asked for, in the applicant's name. This is of a store that is ready,
    -- of a request that has a JSON form when it is received and when it is reviewed, and of an id and an
    -- address without NUL.
    pub approved_request_is_submitted :
        (draw : ℕ → ℕ) (now later now_job number : ℕ) (comment : Text) (request : JobRequest)
        (st : Store) (s : JobManager kv.Store)
        → IsReady st
        → let req = received now number request in
          find req.request_id (list_requests st) ≡ none
          → NoNul req.request_id
          → NoNul req.applicant_email
          → IsPrintable req
          → IsPrintable (reviewed later true comment req)
          → let r = submit_public_request rs js now number request st in
            let t =
              admin_review_request rs js kv draw later now_job req.request_id true comment r.0 s in
            (r.1 ≡ says true req.request_id)
            × (t.1 ≡ says true (txt "Request approved and job scheduled"))
            × (get_job (new_job_id draw) t.0.1
                ≡ some (
                    submitted_info
                      (new_job_id draw)
                      now_job
                      request.requested_spec
                      (txt "public-user")
                      request.applicant_name))
    unfolding submit_public_request received
    approved_request_is_submitted draw now later now_job number comment request st s ready fresh i a
          p q =
        let req = received now number request in
        let (said, stored) = submitted_Stores now number request st ready fresh i a p in
        let st' = (submit_public_request rs js now number request st).0 in
        let (answer, jobs, _) = review_stored draw later now_job true comment req st' s stored q in
        (
          said,
          answer,
          ap (λ t. get_job (new_job_id draw) t) jobs ∙ submitted_found draw now_job req s,
        )

    -- A review does not look at the request's status: of two approvals of one stored request, both
    -- are answered with success and both submit a job, under the two ids that are drawn. This is of
    -- two different ids, and of reviewed requests that have a JSON form.
    second_approval_submits_again :
        (draw draw' : ℕ → ℕ) (now now_job later later_job : ℕ) (comment comment' : Text)
        (req : JobRequest) (st : Store) (s : JobManager kv.Store)
        → Stores st req
        → IsPrintable (reviewed now true comment req)
        → IsPrintable (reviewed later true comment' req)
        → text_beq (new_job_id draw') (new_job_id draw) ≡ false
        → let r = admin_review_request rs js kv draw now now_job req.request_id true comment st s in
          let t =
            admin_review_request rs js kv draw' later later_job req.request_id true comment' r.0.0
              r.0.1 in
          (r.1 ≡ says true (txt "Request approved and job scheduled"))
          × (t.1 ≡ says true (txt "Request approved and job scheduled"))
          × (get_job (new_job_id draw) t.0.1
              ≡ some (
                  submitted_info
                    (new_job_id draw)
                    now_job
                    req.requested_spec
                    (txt "public-user")
                    req.applicant_name))
          × (get_job (new_job_id draw') t.0.1
              ≡ some (
                  submitted_info
                    (new_job_id draw')
                    later_job
                    req.requested_spec
                    (txt "public-user")
                    req.applicant_name))
    unfolding submit_approved submit_job
    second_approval_submits_again draw draw' now now_job later later_job comment comment' req st s h
          p q ne =
        let (first, jobs, h') = review_stored draw now now_job true comment req st s h p in
        let r = admin_review_request rs js kv draw now now_job req.request_id true comment st s in
        let (second, jobs', _) =
          review_stored draw' later later_job true comment' (reviewed now true comment req) r.0.0
            r.0.1 h' q in
        let info' =
          submitted_info (new_job_id draw') later_job req.requested_spec (txt "public-user")
            req.applicant_name in
        let other =
          get_job-submit_job kv draw' later_job req.requested_spec (txt "public-user")
            req.applicant_name r.0.1 (new_job_id draw) in
        (
          first,
          second,
          ap (λ t. get_job (new_job_id draw) t) jobs'
              ∙ other
              ∙ ap (λ b. if b then some info' else get_job (new_job_id draw) r.0.1) ne
              ∙ ap (λ t. get_job (new_job_id draw) t) jobs
              ∙ submitted_found draw now_job req s,
          ap (λ t. get_job (new_job_id draw') t) jobs' ∙ submitted_found draw' later_job req r.0.1,
        )
