-- ===== src/Master/Server.antt =====
-- master/src/master_server.cpp: what the constructor of MasterServer writes into the accounts, and the
-- state that the components start with. What it starts and stops is in Process.
pub mod Restart
pub mod Process
mod Tests
use certos.Base.{ℕ, [], ◌∷◌, List, Option, some, none, Text, txt}
use certos.Master.KeyValue.{KvStore}
use certos.Master.Jobs.{JobManager}
use certos.Master.Nodes.{NodeRegistry}
use certos.Master.Double.{Double}
use certos.Master.Resources.{ResourceManager}
use certos.Master.FairShare.{FairShareManager, new_FairShareManager}

-- The keys and values that are set, in order.
abbrev pub seeds : List (Text × Text)
seeds =
    (txt "user:admin", txt "admin123")
    ∷ (txt "role:admin", txt "admin")
    ∷ (txt "user:user1", txt "user123")
    ∷ (txt "role:user1", txt "user")
    ∷ (txt "system:user_list", txt "admin,user1")
    ∷ []

module _ (kv : KvStore) where
  open kv use {Store, set_kv}

  unfoldable pub set_all : List (Text × Text) → Store → Store
  set_all [] st = st
  set_all ((key, value) ∷ pairs) st = set_all pairs (set_kv st key value).0

  -- The scheduler, the services and the security managers keep no state of their own here.
  pub record MasterServer (D : Type 0) : Type 0 where
    pub admin_db : Store
    pub node_registry : NodeRegistry
    pub job_mgr : JobManager Store
    pub resource_mgr : ResourceManager
    pub fair_share_mgr : FairShareManager D

  -- Over the two databases as they are opened, the decay of the configuration and the clock.
  unfoldable pub new_MasterServer : (f : Double) → f.D → ℕ → Store → Store → MasterServer f.D
  unfolding set_all
  new_MasterServer f fair_share_decay_hours now admin_db jobs_db = record {
    admin_db = set_all seeds admin_db;
    node_registry = [];
    job_mgr = record { jobs = []; db = some jobs_db };
    resource_mgr = [];
    fair_share_mgr = new_FairShareManager f fair_share_decay_hours now;
  }
