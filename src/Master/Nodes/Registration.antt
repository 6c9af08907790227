-- ===== src/Master/Nodes/Registration.antt =====
-- The registry over any sequence of calls, and what a registration gives.
use certos.Base.{
  ℕ, true, [], ◌∷◌, List, some, ◌≡◌, refl, sym, ap, ◌∙◌, inl, inr, Text, text_beq, text_beq_iff,
  text_beq_refl, find, find-assign, if◌then◌else◌, Option-cases, Bool-cases, some_inj, All, arith,
}
use certos.Messages.{NodeInfo, ResourceSpec, is_online}
use certos.Master.Nodes.{
  NodeRegistry, new_node_id, find_host, registered_again, registered_new, register_node,
  unregister_node, update_heartbeat, get_node, check_timeouts, beaten,
}
use certos.Master.Nodes.Heartbeats.{update_heartbeat_cases, get_node-check_timeouts}
use certos.Master.Nodes.Hosts.{OnHost, find_host_sound, find_host-none}
use certos.Master.Nodes.Invariant.{
  Inv, register_node-Inv, unregister_node-Inv, update_heartbeat-Inv, check_timeouts-Inv,
}

-- A call of the registry with its random numbers and readings of the clock.
pub data Call : Type 0 where
  registers : (draw now : ℕ → ℕ) (info : NodeInfo) → Call
  unregisters : (id : Text) → Call
  beats : (now : ℕ) (id : Text) (free : ResourceSpec) (jobs : ℕ) → Call
  sweeps : (timeout now : ℕ) → Call

unfoldable pub step_registry : NodeRegistry → Call → NodeRegistry
step_registry nodes (registers draw now info) = (register_node draw now info nodes).0
step_registry nodes (unregisters id) = (unregister_node id nodes).0
step_registry nodes (beats now id free jobs) = (update_heartbeat now id free jobs nodes).0
step_registry nodes (sweeps timeout now) = check_timeouts timeout now nodes

unfoldable pub run_registry : NodeRegistry → List Call → NodeRegistry
run_registry nodes [] = nodes
run_registry nodes (c ∷ cs) = run_registry (step_registry nodes c) cs

step_registry-Inv : (nodes : NodeRegistry) (c : Call) → Inv nodes → Inv (step_registry nodes c)
unfolding step_registry
step_registry-Inv nodes (registers draw now info) v = register_node-Inv draw now info nodes v
step_registry-Inv nodes (unregisters id) v = unregister_node-Inv id nodes v
step_registry-Inv nodes (beats now id free jobs) v = update_heartbeat-Inv now id free jobs nodes v
step_registry-Inv nodes (sweeps timeout now) v = check_timeouts-Inv timeout now nodes v

-- Whatever calls are made of a registry that meets the invariant, ids stay unique and agree with the
-- records, and no host name and address are ever registered under two ids.
pub run_registry-Inv :
    (nodes : NodeRegistry) (cs : List Call) → Inv nodes → Inv (run_registry nodes cs)
unfolding run_registry
run_registry-Inv nodes [] v = v
run_registry-Inv nodes (c ∷ cs) v =
    run_registry-Inv (step_registry nodes c) cs (step_registry-Inv nodes c v)

-- In a registry that meets the invariant, a registration makes its host known under the returned
-- id: the node there is online, and all its resources, as registered, are available.
pub get_node-register_node :
    (draw now : ℕ → ℕ) (info : NodeInfo) (nodes : NodeRegistry)
    → Inv nodes
    → let r = register_node draw now info nodes in
      (node : NodeInfo) × (get_node r.1 r.0 ≡ some node)
      × OnHost info.hostname info.ip_address node
      × (is_online node.status ≡ true)
      × (node.total_resources ≡ info.total_resources)
      × (node.available_resources ≡ info.total_resources)
      × (node.node_id ≡ r.1)
unfolding register_node get_node
get_node-register_node draw now info nodes v =
    elim (Option-cases (find_host info.hostname info.ip_address nodes)) [
      | inl e ↦
          let id = new_node_id draw in
          let node = registered_new now id info in
          rw (e, register_node)
            (
              node,
              find-assign id id node nodes
                  ∙ ap (λ b. if b then some node else find id nodes) (text_beq_refl id),
              (refl, refl),
              refl,
              refl,
              refl,
              refl,
            )
      | inr ((key, old), e) ↦
          let node = registered_again (now 0) info old in
          let (at, on) = find_host_sound info.hostname info.ip_address nodes key old v.distinct e in
          rw (e, register_node)
            (
              node,
              find-assign key key node nodes
                  ∙ ap (λ b. if b then some node else find key nodes) (text_beq_refl key),
              on,
              refl,
              refl,
              refl,
              v.named key old at,
            )
    ]

-- A heartbeat or a sweep.
abbrev pub IsRoutine : Call → Type 0
IsRoutine (beats now id free jobs) = Unit
IsRoutine (sweeps timeout now) = Unit
IsRoutine _ = ⊥

step_keeps_host :
    (nodes : NodeRegistry) (c : Call) (key : Text) (node : NodeInfo)
    → IsRoutine c
    → get_node key nodes ≡ some node
    → (after : NodeInfo) × (get_node key (step_registry nodes c) ≡ some after)
      × OnHost node.hostname node.ip_address after
unfolding step_registry
step_keeps_host nodes (registers draw now info) key node h at = elim h [ ]
step_keeps_host nodes (unregisters id) key node h at = elim h [ ]
step_keeps_host nodes (beats now id free jobs) key node _ at =
    elim (update_heartbeat_cases now id key free jobs nodes) [
      | inl (_, _, same) ↦ rw same (node, at, (refl, refl))
      | inr (old, found, _, e) ↦ elim (Bool-cases (text_beq id key)) [
        | inl q ↦
            let same : old ≡ node =
              some_inj (sym found ∙ ap (λ k. get_node k nodes) ((text_beq_iff id key).0 q) ∙ at) in
            (
              beaten now free jobs old,
              rw q at e,
              (ap (λ n. n.hostname) same, ap (λ n. n.ip_address) same),
            )
        | inr q ↦ (node, rw q at e ∙ at, (refl, refl))
      ]
    ]
step_keeps_host nodes (sweeps timeout now) key node _ at =
    let (after, there, change) = get_node-check_timeouts timeout now key nodes node at in
    (after, there, ground arith)

run_keeps_host :
    (nodes : NodeRegistry) (cs : List Call) (key : Text) (node : NodeInfo)
    → All IsRoutine cs
    → get_node key nodes ≡ some node
    → (after : NodeInfo) × (get_node key (run_registry nodes cs) ≡ some after)
      × OnHost node.hostname node.ip_address after
unfolding run_registry
run_keeps_host nodes [] key node _ at = (node, at, (refl, refl))
run_keeps_host nodes (c ∷ cs) key node (r, rs) at =
    let (mid, there, (h, ip)) = step_keeps_host nodes c key node r at in
    let (after, found, (h', ip')) = run_keeps_host (step_registry nodes c) cs key mid rs there in
    (after, found, (h' ∙ h, ip' ∙ ip))

register_node_known :
    (draw now : ℕ → ℕ) (info : NodeInfo) (nodes : NodeRegistry) (key : Text) (node : NodeInfo)
    → Inv nodes
    → get_node key nodes ≡ some node
    → OnHost info.hostname info.ip_address node
    → (register_node draw now info nodes).1 ≡ key
unfolding register_node get_node
register_node_known draw now info nodes key node v at (h, ip) =
    elim (Option-cases (find_host info.hostname info.ip_address nodes)) [
      | inl e ↦ absurd (find_host-none info.hostname info.ip_address nodes key node e at (h, ip))
      | inr ((k, old), e) ↦
          let (there, (ho, ipo)) =
            find_host_sound info.hostname info.ip_address nodes k old v.distinct e in
          rw (e, register_node) (v.hosts k key old node there at (ho ∙ sym h, ipo ∙ sym ip))
    ]

-- A host that registers again gets the id that it has: after a registration in a registry that
-- meets the invariant and any number of sweeps and heartbeats of nodes, whatever numbers are drawn,
-- the id of the host is the same.
pub register_node_again :
    (draw draw' now now' : ℕ → ℕ) (info again : NodeInfo) (nodes : NodeRegistry) (cs : List Call)
    → Inv nodes
    → OnHost info.hostname info.ip_address again
    → All IsRoutine cs
    → let r = register_node draw now info nodes in
      (register_node draw' now' again (run_registry r.0 cs)).1 ≡ r.1
register_node_again draw draw' now now' info again nodes cs v (h, ip) routine =
    let first = register_node draw now info nodes in
    let v' = register_node-Inv draw now info nodes v in
    let (node, at, (hn, ipn), _, _, _, _) = get_node-register_node draw now info nodes v in
    let (after, there, (ha, ipa)) = run_keeps_host first.0 cs first.1 node routine at in
    register_node_known draw' now' again (run_registry first.0 cs) first.1 after
      (run_registry-Inv first.0 cs v') there (ha ∙ hn ∙ sym h, ipa ∙ ipn ∙ sym ip)
