-- ===== src/Master/Nodes.antt =====
-- master/src/node_registry.cpp. Each method takes the lock for its whole body, so it is one step on
-- the table. `now i` is the i-th reading of the clock in a call. Log lines are left out.
pub mod Hosts
pub mod Heartbeats
pub mod Invariant
pub mod Registration
mod Tests
use certos.Base.{
  ℕ, ◌-◌, Bool, true, false, ◌&&◌, List, [], ◌∷◌, Option, none, some, Text, txt, Dict, find, assign,
  erase, for_each, values, if◌then◌else◌, ltb, ◌==◌, text_eq,
}
use certos.Messages.{NodeInfo, NodeStatus, online, offline, ResourceSpec, is_online}
use certos.Uuid.{short_id}

-- `nodes_`, the only state.
abbrev pub NodeRegistry : Type 0
NodeRegistry = Dict NodeInfo

abbrev pub new_node_id : (ℕ → ℕ) → Text
new_node_id draw = short_id (txt "node-") draw

-- The loop of `register_node`: the first node with the host name and address.
unfoldable pub find_host : Text → Text → NodeRegistry → Option (Text × NodeInfo)
find_host hostname ip_address [] = none
find_host hostname ip_address ((key, node) ∷ nodes) =
    if node.hostname == hostname && node.ip_address == ip_address
    then some (key, node)
    else find_host hostname ip_address nodes

-- The changes to a node that registers again.
abbrev pub registered_again : ℕ → NodeInfo → NodeInfo → NodeInfo
registered_again now info existing = record existing {
  status = online;
  last_heartbeat = now;
  total_resources = info.total_resources;
  available_resources = info.total_resources;
}

abbrev pub registered_new : (ℕ → ℕ) → Text → NodeInfo → NodeInfo
registered_new now node_id info = record info {
  node_id = node_id;
  status = online;
  registered_at = now 0;
  last_heartbeat = now 1;
  available_resources = info.total_resources;
}

unfoldable pub register_node : (ℕ → ℕ) → (ℕ → ℕ) → NodeInfo → NodeRegistry → NodeRegistry × Text
register_node draw now info nodes = elim (find_host info.hostname info.ip_address nodes) [
  | some (key, existing) ↦ (assign key (registered_again (now 0) info existing) nodes, key)
  | none ↦ (
    assign (new_node_id draw) (registered_new now (new_node_id draw) info) nodes,
    new_node_id draw,
  )
]

unfoldable pub unregister_node : Text → NodeRegistry → NodeRegistry × Bool
unregister_node node_id nodes = elim (find node_id nodes) [
  | some _ ↦ (erase node_id nodes, true)
  | none ↦ (nodes, false)
]

abbrev pub beaten : ℕ → ResourceSpec → ℕ → NodeInfo → NodeInfo
beaten now available_resources running_jobs node = record node {
  last_heartbeat = now;
  status = online;
  available_resources = available_resources;
  running_jobs = running_jobs;
}

unfoldable pub update_heartbeat : ℕ → Text → ResourceSpec → ℕ → NodeRegistry → NodeRegistry × Bool
update_heartbeat now node_id available_resources running_jobs nodes = elim (find node_id nodes) [
  | some node ↦ (assign node_id (beaten now available_resources running_jobs node) nodes, true)
  | none ↦ (nodes, false)
]

unfoldable pub get_all_nodes : NodeRegistry → List NodeInfo
get_all_nodes nodes = values nodes

unfoldable pub get_node : Text → NodeRegistry → Option NodeInfo
get_node node_id nodes = find node_id nodes

-- The loop's body in `check_timeouts`. A clock that went back makes the source's difference
-- negative, and this one 0: neither is above the timeout.
unfoldable pub time_out : ℕ → ℕ → Text → NodeInfo → NodeInfo
time_out timeout_sec now key node =
    if is_online node.status
    then if ltb timeout_sec (now - node.last_heartbeat)
      then record node { status = offline }
      else node
    else node

unfoldable pub check_timeouts : ℕ → ℕ → NodeRegistry → NodeRegistry
check_timeouts timeout_sec now nodes = for_each (time_out timeout_sec now) nodes
