-- ===== src/Master/RequestStore.antt =====
-- The request half of the state store, as its clients see it (master/include/.../state_store.h), and
-- the JSON form of a request that protobuf makes.
use certos.Base.{
  ℕ, Bool, true, Text, Option, none, some, Dict, find, text_beq, if◌then◌else◌, ◌≡◌, is_empty,
  false, All, ◌≢◌,
}
use certos.Messages.{JobRequest}

-- No NUL, at which `c_str()` ends: what is promised is promised of such texts.
abbrev pub NoNul : Text → Type 0
NoNul s = All (λ (c : ℕ). c ≢ 0) s

-- A table of requests with an id, a status and data. `lookup` is the data of an id in what
-- `list_requests` gives. A table may refuse a new id that it has already.
pub record RequestStore : Type 1 where
  pub Store : Type 0
  pub add_job_request : Store → Text → Text → ℕ → Text → Store × Bool
  pub update_request_status : Store → Text → ℕ → Text → Store × Bool
  pub list_requests : Store → Dict Text
  pub IsReady : Store → Type 0
  pub add-list :
      (st : Store) (id email : Text) (status : ℕ) (data_json j : Text)
      → IsReady st
      → NoNul id
      → NoNul email
      → NoNul data_json
      → find id (list_requests st) ≡ none
      → find j (list_requests (add_job_request st id email status data_json).0)
        ≡ (if text_beq id j then some data_json else find j (list_requests st))
  pub add_true :
      (st : Store) (id email : Text) (status : ℕ) (data_json : Text)
      → IsReady st
      → NoNul id
      → NoNul email
      → NoNul data_json
      → find id (list_requests st) ≡ none
      → (add_job_request st id email status data_json).1 ≡ true
  pub add-IsReady :
      (st : Store) (id email : Text) (status : ℕ) (data_json : Text)
      → IsReady st
      → NoNul id
      → NoNul email
      → NoNul data_json
      → find id (list_requests st) ≡ none
      → IsReady (add_job_request st id email status data_json).0
  pub update-list :
      (st : Store) (id : Text) (status : ℕ) (data_json j old : Text)
      → IsReady st
      → NoNul id
      → NoNul data_json
      → find id (list_requests st) ≡ some old
      → find j (list_requests (update_request_status st id status data_json).0)
        ≡ (if text_beq id j then some data_json else find j (list_requests st))
  pub update-IsReady :
      (st : Store) (id : Text) (status : ℕ) (data_json old : Text)
      → IsReady st
      → NoNul id
      → NoNul data_json
      → find id (list_requests st) ≡ some old
      → IsReady (update_request_status st id status data_json).0

-- `MessageToJsonString` and `JsonStringToMessage` on requests. `print` gives `none`, and `parse` a
-- message with `false`, where the status is not ok: the message is then what was read so far. The law
-- is promised of messages that `IsPrintable` holds of, such as those whose texts are UTF-8; a control
-- character is escaped.
pub record RequestJson : Type 1 where
  pub print : JobRequest → Option Text
  pub parse : Text → JobRequest × Bool
  pub IsPrintable : JobRequest → Type 0
  pub print-parse :
      (req : JobRequest)
      → IsPrintable req
      → (json : Text) × (print req ≡ some json)
        × (parse json ≡ (req, true))
        × (is_empty json ≡ false)
        × NoNul json
