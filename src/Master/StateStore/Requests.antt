-- ===== src/Master/StateStore/Requests.antt =====
-- The methods on the table of requests, as the store that the handlers are proved over.
use certos.Base.{
  ℕ, Bool, true, [], ◌∷◌, none, some, ◌≡◌, refl, Text, find, text_beq, if◌then◌else◌, Bool-cases,
  inl, inr,
}
use certos.Master.RequestStore.{RequestStore, NoNul}
use certos.Master.StateStore.{
  Sqlite, bound_text, bound_int, schema, add_sql, update_sql, add_job_request,
  update_request_status, list_requests, init,
}

-- What SQLite documents of the three statements, on texts without NUL: a row with a new key is
-- inserted, a row that is there is updated, and the select lists the rows as they then are. `IsOpen`
-- says that the table is there.
pub record KeepsRequests (sq : Sqlite) : Type 1 where
  pub IsOpen : sq.Db → Type 0
  pub schema-IsOpen : (db : sq.Db) → (sq.exec db schema).1 ≡ true → IsOpen (sq.exec db schema).0
  pub inserted :
      (db : sq.Db) (id email : Text) (status : ℕ) (data_json : Text)
      → IsOpen db
      → NoNul id
      → NoNul email
      → NoNul data_json
      → find id (list_requests sq db) ≡ none
      → (db' : sq.Db) × (sq.step db add_sql
            (bound_text id ∷ bound_text email ∷ bound_int status ∷ bound_text data_json ∷ [])
          ≡ some (db', true))
        × IsOpen db'
        × ((j : Text)
            → find j (list_requests sq db')
              ≡ (if text_beq id j then some data_json else find j (list_requests sq db)))
  pub updated :
      (db : sq.Db) (id : Text) (status : ℕ) (data_json old : Text)
      → IsOpen db
      → NoNul id
      → NoNul data_json
      → find id (list_requests sq db) ≡ some old
      → (db' : sq.Db) × (sq.step db update_sql
            (bound_int status ∷ bound_text data_json ∷ bound_text id ∷ [])
          ≡ some (db', true))
        × IsOpen db'
        × ((j : Text)
            → find j (list_requests sq db')
              ≡ (if text_beq id j then some data_json else find j (list_requests sq db)))

module _ (sq : Sqlite) (laws : KeepsRequests sq) where
  open laws use {IsOpen}

  -- What the two methods come to.
  unfoldable pub Added : sq.Db → Text → Text → sq.Db × Bool → Type 0
  Added db id data_json r =
      (r.1 ≡ true)
      × IsOpen r.0
      × ((j : Text)
          → find j (list_requests sq r.0)
            ≡ (if text_beq id j then some data_json else find j (list_requests sq db)))

  pub added :
      (db : sq.Db) (id email : Text) (status : ℕ) (data_json : Text)
      → IsOpen db
      → NoNul id
      → NoNul email
      → NoNul data_json
      → find id (list_requests sq db) ≡ none
      → Added db id data_json (add_job_request sq db id email status data_json)
  unfolding add_job_request Added
  added db id email status data_json o i e d fresh =
      let (db', made, ready, lists) = laws.inserted db id email status data_json o i e d fresh in
      rw made (refl, ready, lists)

  pub replaced :
      (db : sq.Db) (id : Text) (status : ℕ) (data_json old : Text)
      → IsOpen db
      → NoNul id
      → NoNul data_json
      → find id (list_requests sq db) ≡ some old
      → Added db id data_json (update_request_status sq db id status data_json)
  unfolding update_request_status Added
  replaced db id status data_json old o i d found =
      let (db', made, ready, lists) = laws.updated db id status data_json old o i d found in
      rw made (refl, ready, lists)

  -- The store of requests in the database.
  unfoldable pub request_store : RequestStore
  unfolding Added
  request_store = record {
    Store = sq.Db;
    add_job_request = add_job_request sq;
    update_request_status = update_request_status sq;
    list_requests = list_requests sq;
    IsReady = IsOpen;
    add-list = λ db id email status json j o i e d n. (added db id email status json o i e d n).2 j;
    add_true = λ db id email status json o i e d n. (added db id email status json o i e d n).0;
    add-IsReady = λ db id email status json o i e d n. (added db id email status json o i e d n).1;
    update-list = λ db id status json j old o i d n. (replaced db id status json old o i d n).2 j;
    update-IsReady = λ db id status json old o i d n. (replaced db id status json old o i d n).1;
  }

pub init-IsOpen :
    (sq : Sqlite) (laws : KeepsRequests sq) (db_path : Text)
    → (init sq db_path).1 ≡ true
    → laws.IsOpen (init sq db_path).0
unfolding init
init-IsOpen sq laws db_path done = elim (Bool-cases (sq.connect db_path).1) [
  | inl e ↦ rw e (laws.schema-IsOpen (sq.connect db_path).0 (rw e at done))
  | inr e ↦ cc (rw e at done)
]
