-- ===== src/Master/KeyValue.antt =====
-- The key-value half of the state store, as its clients see it (master/include/.../state_store.h).
use certos.Base.{Bool, true, Option, some, Text, ◌≡◌, ◌≢◌}

-- A store with two operations. `IsPlain` says which texts it keeps faithfully; `IsReady` of which
-- stores the laws are promised.
pub record KvStore : Type 1 where
  pub Store : Type 0
  pub get_kv : Store → Text → Option Text
  pub set_kv : Store → Text → Text → Store × Bool
  pub IsPlain : Text → Type 0
  pub IsReady : Store → Type 0
  pub set_kv-IsReady :
      (st : Store) (k v : Text) → IsReady st → IsPlain k → IsPlain v → IsReady (set_kv st k v).0
  pub set_kv_true :
      (st : Store) (k v : Text) → IsReady st → IsPlain k → IsPlain v → (set_kv st k v).1 ≡ true
  pub get_kv-set_kv :
      (st : Store) (k v : Text)
      → IsReady st
      → IsPlain k
      → IsPlain v
      → get_kv (set_kv st k v).0 k ≡ some v
  pub get_kv-set_kv_ne :
      (st : Store) (k v j : Text)
      → IsReady st
      → IsPlain k
      → IsPlain v
      → IsPlain j
      → k ≢ j
      → get_kv (set_kv st k v).0 j ≡ get_kv st j
