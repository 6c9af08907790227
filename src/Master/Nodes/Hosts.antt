-- ===== src/Master/Nodes/Hosts.antt =====
-- Looking a node up by its host.
use certos.Base.{[], ◌∷◌, none, some, ◌≡◌, Text, text_beq_iff, text_eq, find, arith, DistinctKeys}
use certos.Messages.{NodeInfo}
use certos.Master.Nodes.{NodeRegistry, find_host}

-- The node runs on the host.
abbrev pub OnHost : Text → Text → NodeInfo → Type 0
OnHost hostname ip_address node = (node.hostname ≡ hostname) × (node.ip_address ≡ ip_address)

pub find_host_sound :
    (h ip : Text) (nodes : NodeRegistry) (key : Text) (node : NodeInfo)
    → DistinctKeys nodes
    → find_host h ip nodes ≡ some (key, node)
    → (find key nodes ≡ some node) × OnHost h ip node
unfolding find_host find
find_host_sound h ip [] key node d e = cc
find_host_sound h ip ((k, n) ∷ nodes) key node (fresh, d) e = ground (
  arith,
  text_beq_iff n.hostname h,
  text_beq_iff n.ip_address ip,
  text_beq_iff k key,
  find_host_sound h ip nodes key node d,
)

pub find_host-none :
    (h ip : Text) (nodes : NodeRegistry) (key : Text) (node : NodeInfo)
    → find_host h ip nodes ≡ none
    → find key nodes ≡ some node
    → ¬ OnHost h ip node
unfolding find_host find
find_host-none h ip [] key node e found on = cc
find_host-none h ip ((k, n) ∷ nodes) key node e found on = ground (
  arith,
  text_beq_iff n.hostname h,
  text_beq_iff n.ip_address ip,
  text_beq_iff k key,
  find_host-none h ip nodes key node,
)
