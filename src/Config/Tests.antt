-- ===== src/Config/Tests.antt =====
-- Files as they are loaded, with a reader of nested tables in place of yaml-cpp.
use certos.Base.{
  ℕ, ◌%◌, ◌^◌, ◌<◌, Bool, true, false, List, [], ◌∷◌, Option, none, some, Text, txt, ℤ, pos, negsuc,
  ◌≡◌, refl, Dict, find, if◌then◌else◌, ◌==◌, text_eq,
}
use certos.Config.{
  Yaml, to_unsigned, MasterConfig, AgentConfig, GatewayConfig, new_MasterConfig, new_AgentConfig,
  new_GatewayConfig,
}
use certos.Config.Files.{load_master_config}
use certos.Config.Failures.{unreadable_port_drops_rest}

data Scalar : Type 0 where
  text : Text → Scalar
  number : ℤ → Scalar
  flag : Bool → Scalar

data Table : Type 0 where
  leaf : Scalar → Table
  section : Dict Scalar → Table
  root : Dict (Dict Scalar) → Table

abbrev at : Table → Text → Option (Option Table)
at (leaf s) key = none
at (section d) key = some (elim (find key d) [ none ↦ none | some s ↦ some (leaf s) ])
at (root d) key = some (elim (find key d) [ none ↦ none | some s ↦ some (section s) ])

abbrev as_text : Table → Option Text
as_text (leaf (text s)) = some s
as_text (leaf (number n)) = some (txt "7")
as_text (leaf (flag b)) = some (txt "yes")
as_text (section d) = none
as_text (root d) = none

abbrev as_int : Table → Option ℤ
as_int (leaf (number n)) = some n
as_int (leaf (text s)) = none
as_int (leaf (flag b)) = none
as_int (section d) = none
as_int (root d) = none

abbrev as_bool : Table → Option Bool
as_bool (leaf (flag b)) = some b
as_bool (leaf (text s)) = none
as_bool (leaf (number n)) = none
as_bool (section d) = none
as_bool (root d) = none

abbrev gateway_section : Dict Scalar
gateway_section =
    (txt "bind_address", text (txt "::1"))
    ∷ (txt "http_port", number (pos 65616))
    ∷ (txt "master_address", text (txt "head"))
    ∷ (txt "master_port", number (negsuc 0))
    ∷ (txt "log_level", text (txt "warn"))
    ∷ (txt "web_root", text (txt "/srv"))
    ∷ (txt "jwt_secret", text (txt "s3"))
    ∷ (txt "enable_cors", flag false)
    ∷ (txt "cors_origin", text (txt "a.b"))
    ∷ []

-- A master's section with a port in words.
abbrev master_section : Dict Scalar
master_section =
    (txt "bind_address", text (txt "::1"))
    ∷ (txt "grpc_port", text (txt "high"))
    ∷ (txt "jwt_secret", text (txt "s3"))
    ∷ []

abbrev three_master : Dict Scalar
three_master = (txt "grpc_port", number (pos 50052)) ∷ (txt "enable_tls", flag true) ∷ []

abbrev three_agent : Dict Scalar
three_agent = (txt "work_dir", text (txt "/srv")) ∷ (txt "cpu_cores", number (pos 8)) ∷ []

abbrev three_gateway : Dict Scalar
three_gateway = (txt "enable_cors", flag false) ∷ []

abbrev three : Dict (Dict Scalar)
three =
    (txt "master", three_master) ∷ (txt "agent", three_agent) ∷ (txt "gateway", three_gateway) ∷ []

abbrev tables : Yaml
tables = record {
  Node = Table;
  Double = ℕ;
  load_file = λ path.
      if path == txt "g"
      then some (root ((txt "gateway", gateway_section) ∷ []))
      else if path == txt "m"
      then some (root ((txt "master", master_section) ∷ []))
      else if path == txt "w"
      then some (root three)
      else none;
  at = at;
  as_text = as_text;
  as_int = as_int;
  as_bool = as_bool;
  as_double = λ t. none;
  twenty_four = 24;
}

abbrev gateway_config : GatewayConfig
gateway_config = record {
  bind_address = txt "::1";
  http_port = 0;
  master_address = txt "head";
  master_port = 0;
  log_level = txt "warn";
  web_root = txt "/srv";
  jwt_secret = txt "s3";
  enable_cors = false;
  cors_origin = txt "a.b";
}

-- The file "w" gives three configurations by what differs from the defaults.
abbrev written_master : MasterConfig tables
written_master = record (new_MasterConfig tables) { grpc_port = 50052; enable_tls = true }

abbrev written_agent : AgentConfig
written_agent = record new_AgentConfig { work_dir = txt "/srv"; cpu_cores = 8 }

abbrev written_gateway : GatewayConfig
written_gateway = record new_GatewayConfig { enable_cors = false }

config_code : Unit {0}
unfolding find certos.Base.text_beq new_MasterConfig new_AgentConfig new_GatewayConfig
config_code = tt

unreadable_port_drops_rest_example :
    load_master_config tables (txt "m")
    ≡ record (new_MasterConfig tables) { bind_address = txt "::1" }
unfolding certos.Base.text_beq find
unreadable_port_drops_rest_example =
    unreadable_port_drops_rest tables (txt "m") (txt "::1") (section master_section)
      (leaf (text (txt "high"))) (root ((txt "master", master_section) ∷ []), refl, refl)
      (leaf (text (txt "::1")), refl, refl) refl refl

-- The port 65616 is served as 80, and -1 as 65535.
ports_wrap : (to_unsigned 16 (pos 65616) ≡ 80) × (to_unsigned 16 (negsuc 0) ≡ 65535)
unfolding to_unsigned
ports_wrap = (refl, refl)
