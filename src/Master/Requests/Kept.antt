-- ===== src/Master/Requests/Kept.antt =====
-- Public requests in the database of master/src/state_store.cpp.
use certos.Base.{ℕ, true, none, ◌≡◌, Text, find}
use certos.Messages.{JobRequest}
use certos.Master.RequestStore.{RequestJson, NoNul}
use certos.Master.StateStore.{Sqlite, init, list_requests}
use certos.Master.StateStore.Requests.{KeepsRequests, request_store, init-IsOpen}
use certos.Master.Requests.{received, says, submit_public_request}
use certos.Master.Requests.Review.{Stores, submitted_Stores}

-- A request that is submitted to a database that `init` has opened is answered with success, and is kept
-- there under its id. This is of an unused id, of a request that has a JSON form, and of an id and an
-- address without NUL.
submitted_is_kept :
    unfold request_store in
    (sq : Sqlite) (laws : KeepsRequests sq) (js : RequestJson) (db_path : Text) (now number : ℕ)
    (request : JobRequest)
    → (init sq db_path).1 ≡ true
    → let db = (init sq db_path).0 in
      let req = received now number request in
      find req.request_id (list_requests sq db) ≡ none
      → NoNul req.request_id
      → NoNul req.applicant_email
      → js.IsPrintable req
      → let r = submit_public_request (request_store sq laws) js now number request db in
        (r.1 ≡ says true req.request_id) × Stores (request_store sq laws) js r.0 req
unfolding request_store
submitted_is_kept sq laws js db_path now number request opened fresh i a p =
    submitted_Stores (request_store sq laws) js now number request (init sq db_path).0
      (init-IsOpen sq laws db_path opened) fresh i a p
