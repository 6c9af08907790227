-- ===== src/Config/Written.antt =====
-- Files that write a configuration down, and what is loaded from them.
use certos.Base.{ℕ, ◌^◌, ◌<◌, false, true, [], Option, none, some, Text, txt, pos, ◌≡◌, ◌⊎◌}
use certos.Config.{Yaml, AgentConfig, GatewayConfig, MasterConfig}
use certos.Config.Failures.{Gives}

module _ (y : Yaml) where
  -- The key gives the value, or it is left out and the value is the default.
  abbrev pub Writes : {T : Type 0} → (y.Node → Option T) → y.Node → Text → T → T → Type 0
  Writes read node key default v =
      ((y.at node key ≡ some none) × (v ≡ default)) ⊎ Gives y read node key v

  -- The key gives the number, which is one of `w` bits.
  abbrev pub WritesUint : ℕ → y.Node → Text → ℕ → ℕ → Type 0
  WritesUint w node key default n = (n < 2 ^ w) × Writes y.as_int node key (pos default) (pos n)

  -- The section writes the configuration down.
  pub record WritesMaster (node : y.Node) (c : MasterConfig y) : Type 0 where
    pub bind_address : Writes y.as_text node (txt "bind_address") (txt "0.0.0.0") c.bind_address
    pub grpc_port : WritesUint 16 node (txt "grpc_port") 50051 c.grpc_port
    pub db_path : Writes y.as_text node (txt "db_path") (txt "certosc.db") c.db_path
    pub log_dir : Writes y.as_text node (txt "log_dir") (txt "/var/log/certosc") c.log_dir
    pub log_level : Writes y.as_text node (txt "log_level") (txt "info") c.log_level
    pub jwt_secret :
        Writes y.as_text node
          (txt "jwt_secret")
          (txt "certosc-dev-secret-change-in-production")
          c.jwt_secret
    pub jwt_expiry_sec : WritesUint 32 node (txt "jwt_expiry_sec") 3600 c.jwt_expiry_sec
    pub heartbeat_timeout_sec :
        WritesUint 32 node (txt "heartbeat_timeout_sec") 15 c.heartbeat_timeout_sec
    pub scheduler_interval_ms :
        WritesUint 32 node (txt "scheduler_interval_ms") 1000 c.scheduler_interval_ms
    pub backfill_window_sec :
        WritesUint 32 node (txt "backfill_window_sec") 3600 c.backfill_window_sec
    pub max_backfill_jobs : WritesUint 32 node (txt "max_backfill_jobs") 50 c.max_backfill_jobs
    pub fair_share_decay_hours :
        Writes y.as_double node
          (txt "fair_share_decay_hours")
          y.twenty_four
          c.fair_share_decay_hours
    pub enable_tls : Writes y.as_bool node (txt "enable_tls") false c.enable_tls
    pub tls_cert_path : Writes y.as_text node (txt "tls_cert_path") [] c.tls_cert_path
    pub tls_key_path : Writes y.as_text node (txt "tls_key_path") [] c.tls_key_path
    pub node_auth_key :
        Writes y.as_text node (txt "node_auth_key") (txt "certosc-node-key") c.node_auth_key

  -- The section writes the configuration down.
  pub record WritesAgent (node : y.Node) (c : AgentConfig) : Type 0 where
    pub master_address :
        Writes y.as_text node (txt "master_address") (txt "localhost") c.master_address
    pub master_port : WritesUint 16 node (txt "master_port") 50051 c.master_port
    pub heartbeat_interval_sec :
        WritesUint 32 node (txt "heartbeat_interval_sec") 5 c.heartbeat_interval_sec
    pub metrics_interval_sec :
        WritesUint 32 node (txt "metrics_interval_sec") 5 c.metrics_interval_sec
    pub log_dir : Writes y.as_text node (txt "log_dir") (txt "/var/log/certosc") c.log_dir
    pub log_level : Writes y.as_text node (txt "log_level") (txt "info") c.log_level
    pub work_dir : Writes y.as_text node (txt "work_dir") (txt "/tmp/certosc-jobs") c.work_dir
    pub auth_key : Writes y.as_text node (txt "auth_key") (txt "certosc-node-key") c.auth_key
    pub max_concurrent_jobs : WritesUint 32 node (txt "max_concurrent_jobs") 0 c.max_concurrent_jobs
    pub enable_tls : Writes y.as_bool node (txt "enable_tls") false c.enable_tls
    pub tls_ca_path : Writes y.as_text node (txt "tls_ca_path") [] c.tls_ca_path
    pub cpu_cores : WritesUint 32 node (txt "cpu_cores") 0 c.cpu_cores
    pub ram_mb : WritesUint 64 node (txt "ram_mb") 0 c.ram_mb
    pub gpu_count : WritesUint 32 node (txt "gpu_count") 0 c.gpu_count

  -- The section writes the configuration down.
  pub record WritesGateway (node : y.Node) (c : GatewayConfig) : Type 0 where
    pub bind_address : Writes y.as_text node (txt "bind_address") (txt "0.0.0.0") c.bind_address
    pub http_port : WritesUint 16 node (txt "http_port") 8080 c.http_port
    pub master_address :
        Writes y.as_text node (txt "master_address") (txt "localhost") c.master_address
    pub master_port : WritesUint 16 node (txt "master_port") 50051 c.master_port
    pub log_level : Writes y.as_text node (txt "log_level") (txt "info") c.log_level
    pub web_root : Writes y.as_text node (txt "web_root") (txt "../web") c.web_root
    pub jwt_secret :
        Writes y.as_text node
          (txt "jwt_secret")
          (txt "certosc-dev-secret-change-in-production")
          c.jwt_secret
    pub enable_cors : Writes y.as_bool node (txt "enable_cors") true c.enable_cors
    pub cors_origin : Writes y.as_text node (txt "cors_origin") (txt "*") c.cors_origin
