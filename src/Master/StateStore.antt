-- ===== src/Master/StateStore.antt =====
-- master/src/state_store.cpp, over SQLite as a parameter. Each method takes the lock for its whole
-- body. The methods on the tables are on the connection, as `init` leaves it.
pub mod Texts
pub mod Requests
use certos.Base.{
  if◌then◌else◌, ℕ, Bool, true, false, List, [], ◌∷◌, Option, none, some, ◌++◌, Text, txt, ◌≡◌, ◌≢◌,
  All,
}

-- A value that is bound to a prepared statement.
pub data Bound : Type 0 where
  bound_text : Text → Bound
  bound_int : ℕ → Bound

-- What the store uses of SQLite, to which every text is handed by `c_str()`: its laws, which are in Texts
-- and in Requests, are of texts without NUL. `connect` is `sqlite3_open`, which gives a connection even where it
-- fails, with whether the result is SQLITE_OK. `exec` is `sqlite3_exec`, with whether the result is SQLITE_OK. A
-- statement may be refused when it is prepared (`none`); `step` then is its only step, with whether the
-- result is SQLITE_DONE, and `rows` are the texts of its rows.
pub record Sqlite : Type 1 where
  pub Db : Type 0
  pub connect : Text → Db × Bool
  pub exec : Db → Text → Db × Bool
  pub step : Db → Text → List Bound → Option (Db × Bool)
  pub rows : Db → Text → Option (List (List Text))

-- The tables, line by line.
abbrev pub schema : Text
schema =
    txt "\n"
    ++ (txt "        CREATE TABLE IF NOT EXISTS kv_store (\n"
        ++ (txt "            key TEXT PRIMARY KEY,\n"
            ++ (txt "            value TEXT NOT NULL\n"
                ++ (txt "        );\n"
                    ++ (txt "        CREATE TABLE IF NOT EXISTS jobs (\n"
                        ++ (txt "            job_id TEXT PRIMARY KEY,\n"
                            ++ (txt "            user_id TEXT,\n"
                                ++ (txt "            status INTEGER,\n"
                                    ++ (txt "            data TEXT -- JSON representation\n"
                                        ++ (txt "        );\n"
                                            ++ (txt
                                                  "        CREATE TABLE IF NOT EXISTS job_requests (\n"
                                                ++ (txt "            request_id TEXT PRIMARY KEY,\n"
                                                    ++ (txt "            applicant_email TEXT,\n"
                                                        ++ (txt "            status INTEGER,\n"
                                                            ++ (txt
                                                            "            data TEXT -- JSON representation\n"
                                                            ++ (txt "        );\n"
                                                            ++ (txt "    ")))))))))))))))))

abbrev pub set_kv_sql : Text → Text → Text
set_kv_sql key value =
    txt "INSERT OR REPLACE INTO kv_store (key, value) VALUES ('"
    ++ (key ++ (txt "', '" ++ (value ++ txt "');")))

abbrev pub get_kv_sql : Text → Text
get_kv_sql key = txt "SELECT value FROM kv_store WHERE key = '" ++ (key ++ txt "';")

abbrev pub add_sql : Text
add_sql =
    txt "INSERT INTO job_requests (request_id, applicant_email, status, data) VALUES (?, ?, ?, ?);"

abbrev pub update_sql : Text
update_sql = txt "UPDATE job_requests SET status = ?, data = ? WHERE request_id = ?;"

abbrev pub list_sql : Text
list_sql = txt "SELECT request_id, data FROM job_requests ORDER BY request_id DESC;"

-- The first column of the first row.
abbrev pub first_text : Option (List (List Text)) → Option Text
first_text (some ((t ∷ _) ∷ _)) = some t
first_text _ = none

-- The columns of every row.
abbrev pub pairs : List (List Text) → List (Text × Text)
pairs [] = []
pairs ((id ∷ (data_json ∷ _)) ∷ rest) = (id, data_json) ∷ pairs rest
pairs (_ ∷ rest) = pairs rest

module _ (sq : Sqlite) where
  open sq use {Db, connect, exec, step, rows}

  -- The connection that it opens, and whether the tables are there.
  unfoldable pub init : Text → Db × Bool
  init db_path =
      let (db, opened) = connect db_path in if opened then exec db schema else (db, false)

  unfoldable pub set_kv : Db → Text → Text → Db × Bool
  set_kv db key value = exec db (set_kv_sql key value)

  unfoldable pub get_kv : Db → Text → Option Text
  get_kv db key = first_text (rows db (get_kv_sql key))

  -- A statement that is refused changes nothing.
  abbrev pub stepped : Db → Option (Db × Bool) → Db × Bool
  stepped db none = (db, false)
  stepped db (some r) = r

  unfoldable pub add_job_request : Db → Text → Text → ℕ → Text → Db × Bool
  add_job_request db req_id email status data_json = stepped db (
      step db add_sql
        (bound_text req_id ∷ bound_text email ∷ bound_int status ∷ bound_text data_json ∷ []))

  unfoldable pub update_request_status : Db → Text → ℕ → Text → Db × Bool
  update_request_status db req_id status data_json =
      stepped db
        (step db update_sql (bound_int status ∷ bound_text data_json ∷ bound_text req_id ∷ []))

  unfoldable pub list_requests : Db → List (Text × Text)
  list_requests db = elim (rows db list_sql) [ none ↦ [] | some rs ↦ pairs rs ]
