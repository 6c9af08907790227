-- ===== src/Master/Agents/Cancellation.antt =====
-- How a cancellation reaches an agent.
use certos.Base.{
  ℕ, ◌-◌, ◌<◌, true, [], some, ◌≡◌, refl, sym, ap, ◌∙◌, inl, inr, Text, arith, Memᴰ, text_eq,
  text_beq_refl, DistinctKeys, some_inj,
}
use certos.Messages.{JobInfo, running, NodeInfo, status_is}
use certos.Master.KeyValue.{KvStore}
use certos.Master.Jobs.{JobManager, get_job, cancel_job, get_jobs_to_cancel_for_node, is_over}
use certos.Master.Jobs.Updates.{cancel_job_cases, cancelled_info}
use certos.Master.Jobs.Listing.{mem-get_jobs_to_cancel_for_node}
use certos.Master.Jobs.Calls.{cancels, step}
use certos.Master.Jobs.Lifecycle.{Inv, step-Inv}
use certos.Master.Nodes.{NodeRegistry, get_node}
use certos.Master.Nodes.Heartbeats.{update_heartbeat_cases}
use certos.Master.Rpc.{ok}
use certos.Master.Agents.{HeartbeatRequest, HeartbeatResponse, send_heartbeat}

module _ (kv : KvStore) where
  open kv use {Store}

  pub running_is_not_over :
      (info : JobInfo) → info.status ≡ running → is_over info.status ≡ true → ⊥
  unfolding status_is
  running_is_not_over info runs over = ground arith

  cancelled_is_due :
      (now : ℕ) (now_at : JobInfo → ℕ) (id node : Text) (s : JobManager Store) (info : JobInfo)
      → Inv s
      → DistinctKeys (cancel_job now id s).0.jobs
      → get_job id s ≡ some info
      → info.status ≡ running
      → info.assigned_node_id ≡ node
      → ((i : JobInfo) → now_at i - now < 60)
      → Memᴰ id (get_jobs_to_cancel_for_node now_at node (cancel_job now id s).0)
  unfolding get_job
  cancelled_is_due now now_at id node s info v d found runs at soon =
      elim (cancel_job_cases now id id s) [
        | inl (_, _, inl missing) ↦ cc
        | inl (_, _, inr (info', same, over)) ↦
            let e = some_inj (sym same ∙ found) in
            absurd (running_is_not_over info' (ap (λ i. i.status) e ∙ runs) over)
        | inr (info', same, _, _, changed) ↦
            let e = some_inj (sym same ∙ found) in
            (mem-get_jobs_to_cancel_for_node now_at node id (cancel_job now id s).0 d).1 (
              id,
              cancelled_info now info',
              rw (text_beq_refl id) at changed,
              sym (v.each id info' same).named,
              record {
                is_cancelled = refl;
                placed = ap (λ i. i.assigned_node_id) e ∙ at;
                recent = soon (cancelled_info now info');
              },
            )
      ]

  -- A cancellation reaches the agent: when a job that runs on a registered node is cancelled, after
  -- the epoch, and the node's next heartbeat comes less than 60 seconds later, by every reading of
  -- the clock in it, the answer to that heartbeat is acknowledged and lists the job. This is of a
  -- table that meets the invariant.
  pub cancel_reaches_agent :
      (now later : ℕ) (now_at : JobInfo → ℕ) (id : Text) (request : HeartbeatRequest)
      (s : JobManager Store) (nodes : NodeRegistry) (info : JobInfo) (node : NodeInfo)
      → Inv s
      → 0 < now
      → get_job id s ≡ some info
      → info.status ≡ running
      → info.assigned_node_id ≡ request.node_id
      → get_node request.node_id nodes ≡ some node
      → ((i : JobInfo) → now_at i - now < 60)
      → (r : HeartbeatResponse) × ((send_heartbeat later now_at request
            (cancel_job now id s).0
            nodes).1
          ≡ ok r)
        × (r.acknowledged ≡ true)
        × Memᴰ id r.jobs_to_cancel
  unfolding send_heartbeat step
  cancel_reaches_agent now later now_at id request s nodes info node v h found runs at registered
        soon =
      let s' = (cancel_job now id s).0 in
      let v' = step-Inv kv s (cancels now id) h v in
      let due =
        cancelled_is_due now now_at id request.node_id s info v v'.distinct found runs at soon in
      elim (update_heartbeat_cases later request.node_id [] request.available_resources
        request.running_jobs nodes) [
          | inl (_, missing, _) ↦ cc
          | inr (_, _, done, _) ↦ rw done (_, refl, refl, due)
        ]
