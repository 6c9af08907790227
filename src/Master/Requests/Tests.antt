-- ===== src/Master/Requests/Tests.antt =====
-- Examples of public requests.
use certos.Base.{
  ℕ, ◌∷◌, [], true, none, some, ◌≡◌, refl, Text, txt, Dict, find, assign, text_beq, text_eq,
}
use certos.Master.Jobs.{JobManager, get_job, submitted_info, new_job_id}
use certos.Uuid.{short_id}
use certos.Master.Requests.{received, says, submit_public_request, admin_review_request}
use certos.Master.Requests.Review.{approved_request_is_submitted, Stores}
use certos.Master.Samples.{map_store}
use certos.Master.RequestStore.{NoNul}
use certos.Master.RequestSamples.{map_requests, sample_json, sample_request}

abbrev digits : ℕ → ℕ
digits i = 1

abbrev empty_table : JobManager map_store.Store
empty_table = record { jobs = []; db = none }

request_code : Unit {0}
unfolding find assign received certos.Uuid.generate_uuid text_beq
request_code = tt

id-NoNul : NoNul (txt "req-a")
id-NoNul = ((λ e. cc), ((λ e. cc), ((λ e. cc), ((λ e. cc), ((λ e. cc), tt)))))

approved_request_is_submitted_example :
    let req = received 7 3 sample_request in
    let r = submit_public_request map_requests sample_json 7 3 sample_request [] in
    let t =
      admin_review_request map_requests sample_json map_store digits 8 9 req.request_id true [] r.0
        empty_table in
    (r.1 ≡ says true req.request_id)
    × (t.1 ≡ says true (txt "Request approved and job scheduled"))
    × (get_job (new_job_id digits) t.0.1
        ≡ some (
            submitted_info
              (new_job_id digits)
              9
              sample_request.requested_spec
              (txt "public-user")
              sample_request.applicant_name))
unfolding request_code
approved_request_is_submitted_example =
    approved_request_is_submitted map_requests sample_json map_store digits 7 8 9 3 []
      sample_request [] empty_table tt refl id-NoNul tt refl refl

abbrev one_request : Dict Text
one_request = (txt "req-a", 1 ∷ 1 ∷ []) ∷ []

one_request-Stores : Stores map_requests sample_json one_request sample_request
unfolding request_code
one_request-Stores = record {
  json = 1 ∷ 1 ∷ [];
  listed = refl;
  present = refl;
  parsed = refl;
  ready = tt;
  no_nul = id-NoNul;
}
