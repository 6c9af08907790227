-- ===== src/Config/Files.antt =====
-- lib/common/src/config.cpp: the three functions that load a configuration, with the fields of each in
-- the order of the statements.
use certos.Base.{Bool, List, [], ◌∷◌, Text, txt}
use certos.Config.{
  Yaml, Field, field, uint_field, load_section, AgentConfig, new_AgentConfig, GatewayConfig,
  new_GatewayConfig, MasterConfig, new_MasterConfig,
}

module _ (y : Yaml) {C : Type 0} where
  abbrev text_field : y.Node → Text → (C → Text) → (Text → C → C) → Field C
  text_field = field y y.as_text

  abbrev bool_field : y.Node → Text → (C → Bool) → (Bool → C → C) → Field C
  bool_field = field y y.as_bool

  abbrev double_field : y.Node → Text → (C → y.Double) → (y.Double → C → C) → Field C
  double_field = field y y.as_double

module _ (y : Yaml) where
  unfoldable pub agent_fields : y.Node → List (Field AgentConfig)
  agent_fields node =
      text_field y node (txt "master_address") (λ c. c.master_address)
        (λ v c. record c { master_address = v })
      ∷ uint_field y 16 node (txt "master_port") (λ c. c.master_port)
          (λ v c. record c { master_port = v })
      ∷ uint_field y 32 node (txt "heartbeat_interval_sec") (λ c. c.heartbeat_interval_sec)
          (λ v c. record c { heartbeat_interval_sec = v })
      ∷ uint_field y 32 node (txt "metrics_interval_sec") (λ c. c.metrics_interval_sec)
          (λ v c. record c { metrics_interval_sec = v })
      ∷ text_field y node (txt "log_dir") (λ c. c.log_dir) (λ v c. record c { log_dir = v })
      ∷ text_field y node (txt "log_level") (λ c. c.log_level) (λ v c. record c { log_level = v })
      ∷ text_field y node (txt "work_dir") (λ c. c.work_dir) (λ v c. record c { work_dir = v })
      ∷ text_field y node (txt "auth_key") (λ c. c.auth_key) (λ v c. record c { auth_key = v })
      ∷ uint_field y 32 node (txt "max_concurrent_jobs") (λ c. c.max_concurrent_jobs)
          (λ v c. record c { max_concurrent_jobs = v })
      ∷ bool_field y node (txt "enable_tls") (λ c. c.enable_tls)
          (λ v c. record c { enable_tls = v })
      ∷ text_field y node (txt "tls_ca_path") (λ c. c.tls_ca_path)
          (λ v c. record c { tls_ca_path = v })
      ∷ uint_field y 32 node (txt "cpu_cores") (λ c. c.cpu_cores)
          (λ v c. record c { cpu_cores = v })
      ∷ uint_field y 64 node (txt "ram_mb") (λ c. c.ram_mb) (λ v c. record c { ram_mb = v })
      ∷ uint_field y 32 node (txt "gpu_count") (λ c. c.gpu_count)
          (λ v c. record c { gpu_count = v })
      ∷ []

  unfoldable pub load_agent_config : Text → AgentConfig
  load_agent_config path = load_section y path (txt "agent") new_AgentConfig agent_fields

  unfoldable pub gateway_fields : y.Node → List (Field GatewayConfig)
  gateway_fields node =
      text_field y node (txt "bind_address") (λ c. c.bind_address)
        (λ v c. record c { bind_address = v })
      ∷ uint_field y 16 node (txt "http_port") (λ c. c.http_port)
          (λ v c. record c { http_port = v })
      ∷ text_field y node (txt "master_address") (λ c. c.master_address)
          (λ v c. record c { master_address = v })
      ∷ uint_field y 16 node (txt "master_port") (λ c. c.master_port)
          (λ v c. record c { master_port = v })
      ∷ text_field y node (txt "log_level") (λ c. c.log_level) (λ v c. record c { log_level = v })
      ∷ text_field y node (txt "web_root") (λ c. c.web_root) (λ v c. record c { web_root = v })
      ∷ text_field y node (txt "jwt_secret") (λ c. c.jwt_secret)
          (λ v c. record c { jwt_secret = v })
      ∷ bool_field y node (txt "enable_cors") (λ c. c.enable_cors)
          (λ v c. record c { enable_cors = v })
      ∷ text_field y node (txt "cors_origin") (λ c. c.cors_origin)
          (λ v c. record c { cors_origin = v })
      ∷ []

  unfoldable pub load_gateway_config : Text → GatewayConfig
  load_gateway_config path = load_section y path (txt "gateway") new_GatewayConfig gateway_fields

  unfoldable pub master_fields : y.Node → List (Field (MasterConfig y))
  master_fields node =
      text_field y node (txt "bind_address") (λ c. c.bind_address)
        (λ v c. record c { bind_address = v })
      ∷ uint_field y 16 node (txt "grpc_port") (λ c. c.grpc_port)
          (λ v c. record c { grpc_port = v })
      ∷ text_field y node (txt "db_path") (λ c. c.db_path) (λ v c. record c { db_path = v })
      ∷ text_field y node (txt "log_dir") (λ c. c.log_dir) (λ v c. record c { log_dir = v })
      ∷ text_field y node (txt "log_level") (λ c. c.log_level) (λ v c. record c { log_level = v })
      ∷ text_field y node (txt "jwt_secret") (λ c. c.jwt_secret)
          (λ v c. record c { jwt_secret = v })
      ∷ uint_field y 32 node (txt "jwt_expiry_sec") (λ c. c.jwt_expiry_sec)
          (λ v c. record c { jwt_expiry_sec = v })
      ∷ uint_field y 32 node (txt "heartbeat_timeout_sec") (λ c. c.heartbeat_timeout_sec)
          (λ v c. record c { heartbeat_timeout_sec = v })
      ∷ uint_field y 32 node (txt "scheduler_interval_ms") (λ c. c.scheduler_interval_ms)
          (λ v c. record c { scheduler_interval_ms = v })
      ∷ uint_field y 32 node (txt "backfill_window_sec") (λ c. c.backfill_window_sec)
          (λ v c. record c { backfill_window_sec = v })
      ∷ uint_field y 32 node (txt "max_backfill_jobs") (λ c. c.max_backfill_jobs)
          (λ v c. record c { max_backfill_jobs = v })
      ∷ double_field y node (txt "fair_share_decay_hours") (λ c. c.fair_share_decay_hours)
          (λ v c. record c { fair_share_decay_hours = v })
      ∷ bool_field y node (txt "enable_tls") (λ c. c.enable_tls)
          (λ v c. record c { enable_tls = v })
      ∷ text_field y node (txt "tls_cert_path") (λ c. c.tls_cert_path)
          (λ v c. record c { tls_cert_path = v })
      ∷ text_field y node (txt "tls_key_path") (λ c. c.tls_key_path)
          (λ v c. record c { tls_key_path = v })
      ∷ text_field y node (txt "node_auth_key") (λ c. c.node_auth_key)
          (λ v c. record c { node_auth_key = v })
      ∷ []

  unfoldable pub load_master_config : Text → MasterConfig y
  load_master_config path = load_section y path (txt "master") (new_MasterConfig y) master_fields
