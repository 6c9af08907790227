-- ===== src/Master/Nodes/Heartbeats.antt =====
-- Heartbeats and timeouts.
use mathlib.Core.Option
use certos.Base.{
  ℕ, ◌-◌, ◌≤◌, ◌<◌, true, false, none, some, ◌≡◌, refl, ap, ◌∙◌, ◌⊎◌, inl, inr, Text, text_beq,
  text_beq_refl, find, find-assign, find-for_each, if◌then◌else◌, arith, Option-cases,
}
use certos.Messages.{NodeInfo, offline, ResourceSpec, is_online}
use certos.Master.Nodes.{NodeRegistry, update_heartbeat, beaten, get_node, time_out, check_timeouts}

time_out_cases :
    (timeout now : ℕ) (key : Text) (node : NodeInfo)
    → ((time_out timeout now key node ≡ node)
        × (is_online node.status ≡ true → now - node.last_heartbeat ≤ timeout))
      ⊎ ((is_online node.status ≡ true)
          × (timeout < now - node.last_heartbeat)
          × (time_out timeout now key node ≡ record node { status = offline }))
unfolding time_out
time_out_cases timeout now key node = ground arith

-- The sweep marks offline a node in the registry that is online and whose last heartbeat is longer
-- ago than the timeout, changes nothing else of it, and leaves any other node as it was.
pub get_node-check_timeouts :
    (timeout now : ℕ) (id : Text) (nodes : NodeRegistry) (node : NodeInfo)
    → get_node id nodes ≡ some node
    → (after : NodeInfo) × (get_node id (check_timeouts timeout now nodes) ≡ some after)
      × (((after ≡ node) × (is_online node.status ≡ true → now - node.last_heartbeat ≤ timeout))
          ⊎ ((is_online node.status ≡ true)
              × (timeout < now - node.last_heartbeat)
              × (after ≡ record node { status = offline })))
unfolding get_node check_timeouts
get_node-check_timeouts timeout now id nodes node found = (
  time_out timeout now id node,
  find-for_each (time_out timeout now) id nodes ∙ ap (Option.map (time_out timeout now id)) found,
  time_out_cases timeout now id node,
)

-- A heartbeat is acknowledged exactly for a registered node, which is then online with the reported
-- resources and jobs and the time of the heartbeat; no other node changes.
pub update_heartbeat_cases :
    (now : ℕ) (id j : Text) (free : ResourceSpec) (jobs : ℕ) (nodes : NodeRegistry)
    → let r = update_heartbeat now id free jobs nodes in
      ((r.1 ≡ false) × (get_node id nodes ≡ none) × (r.0 ≡ nodes))
      ⊎ ((node : NodeInfo) × (get_node id nodes ≡ some node)
          × (r.1 ≡ true)
          × (get_node j r.0
              ≡ (if text_beq id j then some (beaten now free jobs node) else get_node j nodes)))
unfolding update_heartbeat get_node
update_heartbeat_cases now id j free jobs nodes = elim (Option-cases (find id nodes)) [
  | inl e ↦ inl (rw (e, update_heartbeat), e, rw (e, update_heartbeat))
  | inr (node, e) ↦ inr (
    node,
    e,
    rw (e, update_heartbeat),
    rw (e, update_heartbeat) (find-assign id j (beaten now free jobs node) nodes),
  )
]

time_out-beaten :
    (timeout later now jobs : ℕ) (id : Text) (free : ResourceSpec) (node : NodeInfo)
    → later - now ≤ timeout
    → time_out timeout later id (beaten now free jobs node) ≡ beaten now free jobs node
unfolding time_out
time_out-beaten timeout later now jobs id free node h = ground arith

-- A node whose heartbeat was acknowledged is not marked offline by a sweep that runs within the
-- timeout, even if it was offline before.
pub heartbeat_survives_sweep :
    (timeout now later : ℕ) (id : Text) (free : ResourceSpec) (jobs : ℕ) (nodes : NodeRegistry)
    → (update_heartbeat now id free jobs nodes).1 ≡ true
    → later - now ≤ timeout
    → (after : NodeInfo) × (get_node id
          (check_timeouts timeout later (update_heartbeat now id free jobs nodes).0)
        ≡ some after)
      × (is_online after.status ≡ true)
      × (after.available_resources ≡ free)
unfolding get_node check_timeouts
heartbeat_survives_sweep timeout now later id free jobs nodes known near =
    elim (update_heartbeat_cases now id id free jobs nodes) [
      | inl (unknown, _, _) ↦ cc
      | inr (node, _, _, found) ↦
          let at = rw (text_beq_refl id) at found in
          (
            beaten now free jobs node,
            find-for_each (time_out timeout later) id (update_heartbeat now id free jobs nodes).0
                ∙ ap (Option.map (time_out timeout later id)) at
                ∙ ap some (time_out-beaten timeout later now jobs id free node near),
            refl,
            refl,
          )
    ]
