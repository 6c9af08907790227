-- ===== src/Master/StateStore/Texts.antt =====
-- The texts that the store puts into its statements.
use certos.Base.{
  Bool-cases, inl, inr, ℕ, true, [], ◌∷◌, some, ◌≡◌, ◌≢◌, sym, ap, ◌∙◌, ◌++◌, Text, txt, All,
  append_assoc,
}
use certos.Master.KeyValue.{KvStore}
use certos.Master.StateStore.{
  Sqlite, set_kv_sql, get_kv_sql, schema, init, get_kv, set_kv, first_text,
}

-- No quote and no NUL, at which `c_str()` ends.
abbrev pub IsPlainText : Text → Type 0
IsPlainText s = All (λ (c : ℕ). (c ≢ b'\'') × (c ≢ 0)) s

-- What SQLite documents of the two statements, where the texts in their literals are plain: the first
-- succeeds, and then the second finds the value at that key, and what it found before at another.
-- `IsOpen` says that the table is there.
pub record KeepsPairs (sq : Sqlite) : Type 1 where
  pub IsOpen : sq.Db → Type 0
  pub schema-IsOpen : (db : sq.Db) → (sq.exec db schema).1 ≡ true → IsOpen (sq.exec db schema).0
  pub insert-IsOpen :
      (db : sq.Db) (k v : Text)
      → IsOpen db
      → IsPlainText k
      → IsPlainText v
      → IsOpen (sq.exec db (set_kv_sql k v)).0
  pub insert_true :
      (db : sq.Db) (k v : Text)
      → IsOpen db
      → IsPlainText k
      → IsPlainText v
      → (sq.exec db (set_kv_sql k v)).1 ≡ true
  pub select-insert :
      (db : sq.Db) (k v : Text)
      → IsOpen db
      → IsPlainText k
      → IsPlainText v
      → sq.rows (sq.exec db (set_kv_sql k v)).0 (get_kv_sql k) ≡ some ((v ∷ []) ∷ [])
  pub select-insert_ne :
      (db : sq.Db) (k v j : Text)
      → IsOpen db
      → IsPlainText k
      → IsPlainText v
      → IsPlainText j
      → k ≢ j
      → sq.rows (sq.exec db (set_kv_sql k v)).0 (get_kv_sql j) ≡ sq.rows db (get_kv_sql j)

init-IsOpen :
    (sq : Sqlite) (laws : KeepsPairs sq) (db_path : Text)
    → (init sq db_path).1 ≡ true
    → laws.IsOpen (init sq db_path).0
unfolding init
init-IsOpen sq laws db_path done = elim (Bool-cases (sq.connect db_path).1) [
  | inl e ↦ rw e (laws.schema-IsOpen (sq.connect db_path).0 (rw e at done))
  | inr e ↦ cc (rw e at done)
]

-- On plain texts the two methods are the key-value store that the handlers are proved over.
abbrev pub kv_store : (sq : Sqlite) → KeepsPairs sq → KvStore
kv_store sq laws = record {
  Store = sq.Db;
  get_kv = λ db k. first_text (sq.rows db (get_kv_sql k));
  set_kv = λ db k v. sq.exec db (set_kv_sql k v);
  IsPlain = IsPlainText;
  IsReady = laws.IsOpen;
  set_kv-IsReady = λ db k v r p q. laws.insert-IsOpen db k v r p q;
  set_kv_true = λ db k v r p q. laws.insert_true db k v r p q;
  get_kv-set_kv = λ db k v r p q. ap first_text (laws.select-insert db k v r p q);
  get_kv-set_kv_ne =
      λ db k v j r p q p' n. ap first_text (laws.select-insert_ne db k v j r p q p' n);
}

-- A store that `init` has opened keeps what is set: the value is found, and nothing else changes. This is
-- of texts without quotes and NUL.
pub get_kv-set_kv-init :
    (sq : Sqlite) (laws : KeepsPairs sq) (db_path k v j : Text)
    → (init sq db_path).1 ≡ true
    → IsPlainText k
    → IsPlainText v
    → IsPlainText j
    → let db = (init sq db_path).0 in
      let r = set_kv sq db k v in
      (r.1 ≡ true) × (get_kv sq r.0 k ≡ some v) × (k ≢ j → get_kv sq r.0 j ≡ get_kv sq db j)
unfolding set_kv get_kv
get_kv-set_kv-init sq laws db_path k v j opened pk pv pj =
    let ready = init-IsOpen sq laws db_path opened in
    let db = (init sq db_path).0 in
    (
      laws.insert_true db k v ready pk pv,
      ap first_text (laws.select-insert db k v ready pk pv),
      λ ne. ap first_text (laws.select-insert_ne db k v j ready pk pv pj ne),
    )

same_sql :
    (a b c : Text) → set_kv_sql (a ++ (txt "', '" ++ b)) c ≡ set_kv_sql a (b ++ (txt "', '" ++ c))
same_sql a b c =
    let end = txt "');" in
    let tail = append_assoc b (txt "', '" ++ c) end in
    let whole = append_assoc a (txt "', '" ++ b) (txt "', '" ++ (c ++ end)) in
    ap (λ s. txt "INSERT OR REPLACE INTO kv_store (key, value) VALUES ('" ++ s)
      (whole ∙ ap (λ s. a ++ (txt "', '" ++ s)) (sym tail))

-- A quote moves the border between key and value: writing a value under a key with "', '" in it has
-- the same effect on the database as writing under the part before, with the rest in the value.
pub set_kv_confuses :
    (sq : Sqlite) (db : sq.Db) (a b c : Text)
    → set_kv sq db (a ++ (txt "', '" ++ b)) c ≡ set_kv sq db a (b ++ (txt "', '" ++ c))
unfolding set_kv
set_kv_confuses sq db a b c = ap (λ s. sq.exec db s) (same_sql a b c)
