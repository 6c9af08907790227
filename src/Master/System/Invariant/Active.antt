-- ===== src/Master/System/Invariant/Active.antt =====
-- Jobs that are assigned or running stand on nodes that the registry has.
use certos.Base.{
  ℕ, true, [], ◌∷◌, ◌≡◌, ◌≢◌, refl, sym, inl, inr, Text, text_beq, find, assign, find-assign, Each,
  assign-Each, arith, Option-cases, Bool-cases, subst, text_eq,
}
use certos.Messages.{JobStatus, JobSpec, NodeInfo, JobInfo, ResourceSpec, status_is}
use certos.Master.KeyValue.{KvStore}
use certos.Master.Jobs.{
  JobManager, new_job_id, submitted_info, submit_job, set_status, update_job_status, is_active,
  cancel_job,
}
use certos.Master.Jobs.Updates.{set_status_status, cancel_job_result, cancelled_info}
use certos.Master.Nodes.{
  NodeRegistry, new_node_id, register_node, update_heartbeat, find_host, registered_new,
  registered_again, beaten,
}
use certos.Uuid.{short_id}
use certos.Master.Nodes.Hosts.{find_host_sound}
use certos.Master.Nodes.Invariant
use certos.Master.System.{IsRegistered}

abbrev pub Placed : NodeRegistry → Text → JobInfo → Type 0
Placed nodes key info = is_active info.status ≡ true → IsRegistered info.assigned_node_id nodes

module _ (nodes : NodeRegistry) where
  -- An update puts a job that it makes active on the node that it names.
  set_status_node :
      (now : ℕ) (status : JobStatus) (node : Text) (info : JobInfo)
      → node ≢ []
      → is_active status ≡ true
      → (set_status now status node info).assigned_node_id ≡ node
  unfolding set_status
  set_status_node now status [] info ne a = absurd (ne refl)
  set_status_node now status (c ∷ s) info ne a = ground arith

  set_status-Placed :
      (now : ℕ) (status : JobStatus) (node key : Text) (info : JobInfo)
      → node ≢ []
      → IsRegistered node nodes
      → Placed nodes key (set_status now status node info)
  set_status-Placed now status node key info ne at active =
      let same = set_status_status now status node info in
      let a = rw same at active in
      subst (λ k. IsRegistered k nodes) (sym (set_status_node now status node info ne a)) at

  module _ {S : Type 0} where
    pub update_job_status-Placed :
        (now : ℕ) (id : Text) (status : JobStatus) (node : Text) (s : JobManager S)
        → node ≢ []
        → IsRegistered node nodes
        → Each (Placed nodes) s.jobs
        → Each (Placed nodes) (update_job_status now id status node s).0.jobs
    unfolding update_job_status
    update_job_status-Placed now id status node s ne at v = elim (Option-cases (find id s.jobs)) [
      | inl e ↦ rw (e, update_job_status) v
      | inr (info, e) ↦
          rw (e, update_job_status)
            (assign-Each (Placed nodes) id (set_status now status node info) s.jobs v
              (set_status-Placed now status node id info ne at))
    ]

    pub cancel_job-Placed :
        (now : ℕ) (id : Text) (s : JobManager S)
        → Each (Placed nodes) s.jobs
        → Each (Placed nodes) (cancel_job now id s).0.jobs
    unfolding status_is
    cancel_job-Placed now id s v = elim (cancel_job_result now id s) [
      | inl e ↦ rw e v
      | inr (info, _, e) ↦
          rw e (assign-Each (Placed nodes) id (cancelled_info now info) s.jobs v (λ a. cc))
    ]

  pub submit_job-Placed :
      (kv : KvStore) (draw : ℕ → ℕ) (now : ℕ) (spec : JobSpec) (user_id username : Text)
      (s : JobManager kv.Store)
      → Each (Placed nodes) s.jobs
      → Each (Placed nodes) (submit_job kv draw now spec user_id username s).0.jobs
  unfolding submit_job status_is
  submit_job-Placed kv draw now spec user_id username s v =
      let id = new_job_id draw in
      assign-Each (Placed nodes) id (submitted_info id now spec user_id username) s.jobs v (λ a. cc)

-- A node stays in the registry when another is written.
assign-IsRegistered :
    (key : Text) (node : NodeInfo) (nodes : NodeRegistry) (j : Text)
    → IsRegistered j nodes
    → IsRegistered j (assign key node nodes)
assign-IsRegistered key node nodes j (old, at) = elim (Bool-cases (text_beq key j)) [
  | inl e ↦ (node, rw (find-assign key j node nodes) (rw e refl))
  | inr e ↦ (old, rw (find-assign key j node nodes) (rw e at))
]

-- Registrations and heartbeats: they remove no node.
pub register_node-IsRegistered :
    (draw now : ℕ → ℕ) (info : NodeInfo) (nodes : NodeRegistry) (j : Text)
    → IsRegistered j nodes
    → IsRegistered j (register_node draw now info nodes).0
unfolding register_node
register_node-IsRegistered draw now info nodes j at =
    elim (Option-cases (find_host info.hostname info.ip_address nodes)) [
      | inl e ↦
          rw (e, register_node)
            (assign-IsRegistered (new_node_id draw) (registered_new now (new_node_id draw) info)
              nodes j at)
      | inr ((key, old), e) ↦
          rw (e, register_node)
            (assign-IsRegistered key (registered_again (now 0) info old) nodes j at)
    ]

pub update_heartbeat-IsRegistered :
    (now : ℕ) (id : Text) (free : ResourceSpec) (running_jobs : ℕ) (nodes : NodeRegistry) (j : Text)
    → IsRegistered j nodes
    → IsRegistered j (update_heartbeat now id free running_jobs nodes).0
unfolding update_heartbeat
update_heartbeat-IsRegistered now id free running_jobs nodes j at =
    elim (Option-cases (find id nodes)) [
      | inl e ↦ rw (e, update_heartbeat) at
      | inr (n, e) ↦
          rw (e, update_heartbeat)
            (assign-IsRegistered id (beaten now free running_jobs n) nodes j at)
    ]

-- Every id in the registry is a text that is not empty.
abbrev pub AreNamed : NodeRegistry → Type 0
AreNamed = Each (λ (key : Text) (node : NodeInfo). key ≢ [])

new_node_id_ne : (draw : ℕ → ℕ) → new_node_id draw ≢ []
unfolding short_id
new_node_id_ne draw e = cc

pub register_node-AreNamed :
    (draw now : ℕ → ℕ) (info : NodeInfo) (nodes : NodeRegistry)
    → Invariant.Inv nodes
    → AreNamed nodes
    → AreNamed (register_node draw now info nodes).0
unfolding register_node
register_node-AreNamed draw now info nodes v named =
    elim (Option-cases (find_host info.hostname info.ip_address nodes)) [
      | inl e ↦
          rw (e, register_node)
            (assign-Each (λ key _. key ≢ []) (new_node_id draw)
              (registered_new now (new_node_id draw) info) nodes named (new_node_id_ne draw))
      | inr ((key, old), e) ↦
          let at = (find_host_sound info.hostname info.ip_address nodes key old v.distinct e).0 in
          rw (e, register_node)
            (assign-Each (λ key _. key ≢ []) key (registered_again (now 0) info old) nodes named
              (named key old at))
    ]

pub update_heartbeat-AreNamed :
    (now : ℕ) (id : Text) (free : ResourceSpec) (running_jobs : ℕ) (nodes : NodeRegistry)
    → AreNamed nodes
    → AreNamed (update_heartbeat now id free running_jobs nodes).0
unfolding update_heartbeat
update_heartbeat-AreNamed now id free running_jobs nodes named =
    elim (Option-cases (find id nodes)) [
      | inl e ↦ rw (e, update_heartbeat) named
      | inr (n, e) ↦
          rw (e, update_heartbeat)
            (assign-Each (λ key _. key ≢ []) id (beaten now free running_jobs n) nodes named
              (named id n e))
    ]
