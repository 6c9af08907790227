-- ===== src/Config.antt =====
-- lib/common/src/config.cpp and config.h: the configurations of the three programs. The library
-- yaml-cpp is a parameter, and what its calls throw is a `none`. A configuration is read field by field
-- until a call throws. What is printed to the console is left out.
pub mod Files
pub mod Failures
pub mod Written
mod Tests
use certos.Base.{
  ℕ, ◌+◌, ◌-◌, ◌%◌, ◌^◌, ◌<◌, Bool, true, false, List, [], ◌∷◌, Option, none, some, Text, txt, ℤ,
  pos, negsuc, ◌≡◌,
}

-- What is used of yaml-cpp. Of a node that is no map, no field can be asked.
pub record Yaml : Type 1 where
  pub Node : Type 0
  pub Double : Type 0
  pub load_file : Text → Option Node
  -- `none` where the call throws, `some none` where there is no such key
  pub at : Node → Text → Option (Option Node)
  pub as_text : Node → Option Text
  pub as_int : Node → Option ℤ
  pub as_bool : Node → Option Bool
  pub as_double : Node → Option Double
  pub twenty_four : Double

-- The conversion of an `int` to an unsigned type of `w` bits.
unfoldable pub to_unsigned : ℕ → ℤ → ℕ
to_unsigned w (pos n) = n % 2 ^ w
to_unsigned w (negsuc n) = 2 ^ w - 1 - n % 2 ^ w

-- A field is read into the configuration, or the call throws.
abbrev pub Field : Type 0 → Type 0
Field C = C → Option C

-- The statements of the `try` block.
unfoldable pub read_fields : {C : Type 0} → List (Field C) → C → C
read_fields [] cfg = cfg
read_fields (f ∷ fs) cfg = elim (f cfg) [ none ↦ cfg | some cfg' ↦ read_fields fs cfg' ]

pub record AgentConfig : Type 0 where
  pub master_address : Text
  pub master_port : ℕ
  pub heartbeat_interval_sec : ℕ
  pub metrics_interval_sec : ℕ
  pub log_dir : Text
  pub log_level : Text
  pub work_dir : Text
  pub auth_key : Text
  pub max_concurrent_jobs : ℕ
  pub enable_tls : Bool
  pub tls_ca_path : Text
  pub cpu_cores : ℕ
  pub ram_mb : ℕ
  pub gpu_count : ℕ

unfoldable pub new_AgentConfig : AgentConfig
new_AgentConfig = record {
  master_address = txt "localhost";
  master_port = 50051;
  heartbeat_interval_sec = 5;
  metrics_interval_sec = 5;
  log_dir = txt "/var/log/certosc";
  log_level = txt "info";
  work_dir = txt "/tmp/certosc-jobs";
  auth_key = txt "certosc-node-key";
  max_concurrent_jobs = 0;
  enable_tls = false;
  tls_ca_path = [];
  cpu_cores = 0;
  ram_mb = 0;
  gpu_count = 0;
}

pub record GatewayConfig : Type 0 where
  pub bind_address : Text
  pub http_port : ℕ
  pub master_address : Text
  pub master_port : ℕ
  pub log_level : Text
  pub web_root : Text
  pub jwt_secret : Text
  pub enable_cors : Bool
  pub cors_origin : Text

unfoldable pub new_GatewayConfig : GatewayConfig
new_GatewayConfig = record {
  bind_address = txt "0.0.0.0";
  http_port = 8080;
  master_address = txt "localhost";
  master_port = 50051;
  log_level = txt "info";
  web_root = txt "../web";
  jwt_secret = txt "certosc-dev-secret-change-in-production";
  enable_cors = true;
  cors_origin = txt "*";
}

module _ (y : Yaml) where
  open y use {Node, Double, load_file, at, as_text, as_int, as_bool, as_double, twenty_four}

  unfoldable pub yaml_get : {T : Type 0} → (Node → Option T) → Node → Text → T → Option T
  yaml_get read node key default_val = elim (at node key) [
    | none ↦ none
    | some found ↦ elim found [ none ↦ some default_val | some value ↦ read value ]
  ]

  -- One statement of the `try` block: the field's present value is the default.
  abbrev pub field :
      {T : Type 0}
      → {C : Type 0} → (Node → Option T)
      → Node
      → Text
      → (C → T)
      → (T → C → C)
      → Field C
  field read node key get set cfg = elim (yaml_get read node key (get cfg)) [
    | none ↦ none
    | some value ↦ some (set value cfg)
  ]

  -- A field of an unsigned type of `w` bits, read as an `int`.
  abbrev pub uint_field : {C : Type 0} → ℕ → Node → Text → (C → ℕ) → (ℕ → C → C) → Field C
  uint_field w node key get set =
      field as_int node key (λ c. pos (get c)) (λ v c. set (to_unsigned w v) c)

  -- A program's configuration: the defaults, changed by the fields of its section.
  unfoldable pub load_section : {C : Type 0} → Text → Text → C → (Node → List (Field C)) → C
  load_section path name cfg fields = elim (load_file path) [
    | none ↦ cfg
    | some root ↦ elim (at root name) [
      | none ↦ cfg
      | some found ↦ elim found [ none ↦ cfg | some node ↦ read_fields (fields node) cfg ]
    ]
  ]

  pub record MasterConfig : Type 0 where
    pub bind_address : Text
    pub grpc_port : ℕ
    pub db_path : Text
    pub log_dir : Text
    pub log_level : Text
    pub jwt_secret : Text
    pub jwt_expiry_sec : ℕ
    pub heartbeat_timeout_sec : ℕ
    pub scheduler_interval_ms : ℕ
    pub backfill_window_sec : ℕ
    pub max_backfill_jobs : ℕ
    pub fair_share_decay_hours : Double
    pub enable_tls : Bool
    pub tls_cert_path : Text
    pub tls_key_path : Text
    pub node_auth_key : Text

  unfoldable pub new_MasterConfig : MasterConfig
  new_MasterConfig = record {
    bind_address = txt "0.0.0.0";
    grpc_port = 50051;
    db_path = txt "certosc.db";
    log_dir = txt "/var/log/certosc";
    log_level = txt "info";
    jwt_secret = txt "certosc-dev-secret-change-in-production";
    jwt_expiry_sec = 3600;
    heartbeat_timeout_sec = 15;
    scheduler_interval_ms = 1000;
    backfill_window_sec = 3600;
    max_backfill_jobs = 50;
    fair_share_decay_hours = twenty_four;
    enable_tls = false;
    tls_cert_path = [];
    tls_key_path = [];
    node_auth_key = txt "certosc-node-key";
  }
