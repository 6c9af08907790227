-- ===== src/Master/Nodes/Invariant.antt =====
-- The node table over any sequence of calls.
use certos.Base.{
  ℕ, some, ◌≡◌, refl, sym, ap, ◌∙◌, inl, inr, Text, text_beq, text_beq_iff, text_eq, find, assign,
  find-assign, find-for_each, arith, Bool-cases, DistinctKeys, some_inj, Option-cases, Each,
  assign-Each, for_each-Each, erase-Each, assign-DistinctKeys, erase-DistinctKeys,
  for_each-DistinctKeys, find-erase, erase, for_each,
}
use certos.Messages.{NodeInfo, ResourceSpec}
use certos.Master.Nodes.{
  NodeRegistry, new_node_id, find_host, registered_again, registered_new, register_node,
  unregister_node, update_heartbeat, beaten, time_out, check_timeouts,
}
use certos.Master.Nodes.Hosts.{OnHost, find_host_sound, find_host-none}

-- No two ids stand for one host.
abbrev pub OneIdPerHost : NodeRegistry → Type 0
OneIdPerHost nodes =
    (j k : Text) (a b : NodeInfo)
    → find j nodes ≡ some a
    → find k nodes ≡ some b
    → OnHost b.hostname b.ip_address a
    → j ≡ k

abbrev pub IsNamed : Text → NodeInfo → Type 0
IsNamed key node = node.node_id ≡ key

pub record Inv (nodes : NodeRegistry) : Type 0 where
  pub distinct : DistinctKeys nodes
  pub named : Each IsNamed nodes
  pub hosts : OneIdPerHost nodes

-- A value may be put under a key if no other key has its host.
assign-hosts :
    (key : Text) (node : NodeInfo) (nodes : NodeRegistry)
    → OneIdPerHost nodes
    → ((j : Text) (a : NodeInfo)
        → find j nodes ≡ some a
        → OnHost node.hostname node.ip_address a
        → j ≡ key)
    → OneIdPerHost (assign key node nodes)
assign-hosts key node nodes one only j k a b fj fk (h, ip) = elim (Bool-cases (text_beq key j)) [
  | inl ej ↦ elim (Bool-cases (text_beq key k)) [
    | inl ek ↦ sym ((text_beq_iff key j).0 ej) ∙ (text_beq_iff key k).0 ek
    | inr ek ↦
        let same : node ≡ a = some_inj (rw (find-assign key j node nodes, ej) at fj) in
        let other = rw (find-assign key k node nodes, ek) at fk in
        sym ((text_beq_iff key j).0 ej)
        ∙ sym (
            only k b other
              (sym h ∙ ap (λ n. n.hostname) (sym same), sym ip ∙ ap (λ n. n.ip_address) (sym same)))
  ]
  | inr ej ↦
      let left = rw (find-assign key j node nodes, ej) at fj in
      elim (Bool-cases (text_beq key k)) [
        | inl ek ↦
            let same : node ≡ b = some_inj (rw (find-assign key k node nodes, ek) at fk) in
            only j a left
              (h ∙ ap (λ n. n.hostname) (sym same), ip ∙ ap (λ n. n.ip_address) (sym same))
            ∙ (text_beq_iff key k).0 ek
        | inr ek ↦ one j k a b left (rw (find-assign key k node nodes, ek) at fk) (h, ip)
      ]
]

-- The same, for a change that leaves the host alone.
pub update-Inv :
    (key : Text) (old new : NodeInfo) (nodes : NodeRegistry)
    → Inv nodes
    → find key nodes ≡ some old
    → OnHost old.hostname old.ip_address new
    → new.node_id ≡ old.node_id
    → Inv (assign key new nodes)
update-Inv key old new nodes v found (h, ip) same = record {
  distinct = assign-DistinctKeys key new nodes v.distinct;
  named = assign-Each IsNamed key new nodes v.named (same ∙ v.named key old found);
  hosts =
      assign-hosts key new nodes v.hosts
        λ j a at (ha, ipa). v.hosts j key a old at found (ha ∙ h, ipa ∙ ip);
}

-- A loop that leaves every host alone.
for_each-hosts :
    (f : Text → NodeInfo → NodeInfo) (nodes : NodeRegistry)
    → ((k : Text) (n : NodeInfo) → OnHost n.hostname n.ip_address (f k n))
    → OneIdPerHost nodes
    → OneIdPerHost (for_each f nodes)
for_each-hosts f nodes keeps one j k a b fj fk (h, ip) = elim (Option-cases (find j nodes)) [
  | inl e ↦ cc (rw (find-for_each f j nodes, e) at fj)
  | inr (a', ea) ↦ elim (Option-cases (find k nodes)) [
    | inl e ↦ cc (rw (find-for_each f k nodes, e) at fk)
    | inr (b', eb) ↦
        let sa : f j a' ≡ a = some_inj (rw (find-for_each f j nodes, ea) at fj) in
        let sb : f k b' ≡ b = some_inj (rw (find-for_each f k nodes, eb) at fk) in
        one j k a' b' ea eb (
          sym (keeps j a').0
              ∙ ap (λ n. n.hostname) sa
              ∙ h
              ∙ sym (ap (λ n. n.hostname) sb)
              ∙ (keeps k b').0,
          sym (keeps j a').1
              ∙ ap (λ n. n.ip_address) sa
              ∙ ip
              ∙ sym (ap (λ n. n.ip_address) sb)
              ∙ (keeps k b').1,
        )
  ]
]

time_out_keeps :
    (timeout now : ℕ) (k : Text) (n : NodeInfo)
    → OnHost n.hostname n.ip_address (time_out timeout now k n)
      × ((time_out timeout now k n).node_id ≡ n.node_id)
unfolding time_out
time_out_keeps timeout now k n = ground arith

pub check_timeouts-Inv :
    (timeout now : ℕ) (nodes : NodeRegistry) → Inv nodes → Inv (check_timeouts timeout now nodes)
unfolding check_timeouts
check_timeouts-Inv timeout now nodes v = record {
  distinct = for_each-DistinctKeys (time_out timeout now) nodes v.distinct;
  named =
      for_each-Each IsNamed (time_out timeout now) nodes
        (λ k n _ e. (time_out_keeps timeout now k n).1 ∙ e) v.named;
  hosts =
      for_each-hosts (time_out timeout now) nodes (λ k n. (time_out_keeps timeout now k n).0)
        v.hosts;
}

erase-hosts :
    (id : Text) (nodes : NodeRegistry) → OneIdPerHost nodes → OneIdPerHost (erase id nodes)
erase-hosts id nodes one j k a b fj fk on = elim (Bool-cases (text_beq id j)) [
  | inl e ↦ cc (rw (find-erase id j nodes, e) at fj)
  | inr ej ↦ elim (Bool-cases (text_beq id k)) [
    | inl e ↦ cc (rw (find-erase id k nodes, e) at fk)
    | inr ek ↦
        one j k a b (rw (find-erase id j nodes, ej) at fj) (rw (find-erase id k nodes, ek) at fk) on
  ]
]

pub unregister_node-Inv :
    (id : Text) (nodes : NodeRegistry) → Inv nodes → Inv (unregister_node id nodes).0
unfolding unregister_node
unregister_node-Inv id nodes v = elim (Option-cases (find id nodes)) [
  | inl e ↦ rw (e, unregister_node) v
  | inr (n, e) ↦
      rw (e, unregister_node)
        (record {
          distinct = erase-DistinctKeys id nodes v.distinct;
          named = erase-Each IsNamed id nodes v.named;
          hosts = erase-hosts id nodes v.hosts;
        })
]

pub update_heartbeat-Inv :
    (now : ℕ) (id : Text) (free : ResourceSpec) (jobs : ℕ) (nodes : NodeRegistry)
    → Inv nodes
    → Inv (update_heartbeat now id free jobs nodes).0
unfolding update_heartbeat
update_heartbeat-Inv now id free jobs nodes v = elim (Option-cases (find id nodes)) [
  | inl e ↦ rw (e, update_heartbeat) v
  | inr (n, e) ↦
      rw (e, update_heartbeat)
        (update-Inv id n (beaten now free jobs n) nodes v e (refl, refl) refl)
]

pub register_node-Inv :
    (draw now : ℕ → ℕ) (info : NodeInfo) (nodes : NodeRegistry)
    → Inv nodes
    → Inv (register_node draw now info nodes).0
unfolding register_node
register_node-Inv draw now info nodes v =
    elim (Option-cases (find_host info.hostname info.ip_address nodes)) [
      | inl e ↦
          let id = new_node_id draw in
          let node = registered_new now id info in
          rw (e, register_node)
            (record {
              distinct = assign-DistinctKeys id node nodes v.distinct;
              named = assign-Each IsNamed id node nodes v.named refl;
              hosts = assign-hosts id node nodes v.hosts λ j a at on.
                  absurd (find_host-none info.hostname info.ip_address nodes j a e at on);
            })
      | inr ((key, old), e) ↦
          rw (e, register_node)
            (update-Inv key old (registered_again (now 0) info old) nodes v
              (find_host_sound info.hostname info.ip_address nodes key old v.distinct e).0
              (refl, refl) refl)
    ]
