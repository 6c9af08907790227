-- ===== src/Master/System/Invariant/Thread.antt =====
-- The scheduler's thread keeps the invariant of the master.
use certos.Base.{
  ℕ, ◌<◌, Bool, true, false, List, [], ◌∷◌, some, ◌≡◌, refl, sym, ap, ◌∙◌, inl, inr, find, All,
  Option-cases, subst, is_empty, if◌then◌else◌, All-of_mem, find_of_mem-values,
}
use certos.Messages.{NodeInfo, JobInfo}
use certos.Master.FairShare.{FairShareManager, apply_decay}
use certos.Master.Jobs.{get_pending_jobs}
use certos.Master.Jobs.Calls.{assigns}
use certos.Master.Nodes.{get_all_nodes}
use certos.Master.Scheduler.{goes_before, place_on, online_nodes}
use certos.Master.Scheduler.Pass.{place_on_keeps_ids, online_node}
use certos.Master.Scheduler.Engine.{
  Phase, tests, looks_for_jobs, decays, looks_for_nodes, places, sleeps, over, Components, turn,
  place_next,
}
use certos.Master.System.{System, Platform, IsRegistered, turn_thread}
use certos.Master.System.Invariant.{Inv, is_going, chosen, update_job_status-Inv}

module _ {pf : Platform} where
  open pf use {f, sort, kv}

  -- The system with the components and the phase that a move gives.
  abbrev moved : System pf → Components kv.Store f.D × Phase → System pf
  moved s (parts, p) = record s { engine = record (s.engine) { thread = some p }; parts = parts }

  -- A move that only changes the phase.
  moved-Inv :
      (s : System pf) (p : Phase)
      → Inv s
      → All (λ node. IsRegistered node.node_id s.parts.node_registry) (chosen (some p))
      → (s.engine.running ≡ true → is_going (some p) ≡ true)
      → Inv (moved s (s.parts, p))
  moved-Inv s p v c g = record {
    jobs = v.jobs;
    nodes = v.nodes;
    named = v.named;
    placed = v.placed;
    candidates = c;
    going = g;
  }

  online_nodes-IsRegistered :
      (s : System pf)
      → Inv s
      → All
          (λ node. IsRegistered node.node_id s.parts.node_registry)
          (online_nodes s.parts.node_registry)
  unfolding get_all_nodes
  online_nodes-IsRegistered s v =
      All-of_mem (λ node. IsRegistered node.node_id s.parts.node_registry)
        (online_nodes s.parts.node_registry)
        λ node m.
          let (at, _) = online_node s.parts.node_registry m in
          let (k, found) = find_of_mem-values s.parts.node_registry v.nodes.distinct at in
          (
            node,
            subst (λ i. find i s.parts.node_registry ≡ some node) (sym (v.nodes.named k node found))
                found,
          )

  place_next-Inv :
      (s : System pf) (now : ℕ) (job : JobInfo) (jobs : List JobInfo) (nodes : List NodeInfo)
      → 0 < now
      → Inv s
      → All (λ node. IsRegistered node.node_id s.parts.node_registry) nodes
      → Inv (moved s (place_next f sort now job jobs nodes s.parts))
  unfolding place_next chosen is_going
  place_next-Inv s now job jobs nodes h v c =
      elim (Option-cases (place_on job.spec.resources nodes)) [
        | inl e ↦ rw (e, place_next) (moved-Inv s (places jobs nodes) v c (λ _. refl))
        | inr ((id, nodes'), e) ↦
            let (at, c') =
              place_on_keeps_ids (λ k. IsRegistered k s.parts.node_registry) job.spec.resources
                nodes nodes' id e c in
            let u = update_job_status-Inv s v now assigns job.job_id id h at in
            rw (e, place_next) (moved-Inv _ (places jobs nodes') u c' (λ _. refl))
      ]

  -- The branches of the single moves.
  tests-Inv :
      (s : System pf) (running : Bool)
      → Inv s
      → s.engine.running ≡ running
      → Inv (moved s (s.parts, if running then looks_for_jobs else over))
  unfolding is_going chosen
  tests-Inv s true v e = moved-Inv s looks_for_jobs v tt (λ _. refl)
  tests-Inv s false v e = moved-Inv s over v tt (λ r. cc)

  looks_for_jobs-Inv :
      (s : System pf) (none_pending : Bool) (jobs : List JobInfo)
      → Inv s
      → Inv (moved s (s.parts, if none_pending then sleeps else decays jobs))
  unfolding is_going chosen
  looks_for_jobs-Inv s true jobs v = moved-Inv s sleeps v tt (λ _. refl)
  looks_for_jobs-Inv s false jobs v = moved-Inv s (decays jobs) v tt (λ _. refl)

  looks_for_nodes-Inv :
      (s : System pf) (none_online : Bool) (jobs : List JobInfo)
      → Inv s
      → Inv (
          moved s (
            s.parts,
            if none_online then sleeps else places jobs (online_nodes s.parts.node_registry),
          ))
  unfolding is_going chosen
  looks_for_nodes-Inv s true jobs v = moved-Inv s sleeps v tt (λ _. refl)
  looks_for_nodes-Inv s false jobs v =
      moved-Inv s (places jobs (online_nodes s.parts.node_registry)) v
        (online_nodes-IsRegistered s v) (λ _. refl)

  decays-Inv :
      (s : System pf) (fair_share : FairShareManager f.D) (jobs : List JobInfo)
      → Inv s
      → Inv (moved s (record (s.parts) { fair_share = fair_share }, looks_for_nodes jobs))
  unfolding is_going chosen
  decays-Inv s fair_share jobs v = record {
    jobs = v.jobs;
    nodes = v.nodes;
    named = v.named;
    placed = v.placed;
    candidates = tt;
    going = λ _. refl;
  }

  -- What the invariant says of the thread's own phase.
  candidates_of :
      (s : System pf) (p : Phase)
      → Inv s
      → s.engine.thread ≡ some p
      → All (λ node. IsRegistered node.node_id s.parts.node_registry) (chosen (some p))
  candidates_of s p v e =
      subst (λ t. All (λ node. IsRegistered node.node_id s.parts.node_registry) (chosen t)) e
        v.candidates

  going_of :
      (s : System pf) (p : Phase)
      → Inv s
      → s.engine.thread ≡ some p
      → s.engine.running ≡ true
      → is_going (some p) ≡ true
  going_of s p v e r = ap is_going (sym e) ∙ v.going r

  turn-Inv :
      (s : System pf) (now : ℕ) (p : Phase)
      → 0 < now
      → Inv s
      → s.engine.thread ≡ some p
      → Inv (moved s (turn f sort s.engine.running now p s.parts))
  unfolding turn chosen is_going
  turn-Inv s now tests h v e = tests-Inv s s.engine.running v refl
  turn-Inv s now looks_for_jobs h v e =
      looks_for_jobs-Inv s (is_empty (get_pending_jobs s.parts.job_mgr))
        (get_pending_jobs s.parts.job_mgr) v
  turn-Inv s now (decays jobs) h v e =
      let fair_share = apply_decay f now s.parts.fair_share in
      decays-Inv s fair_share (sort (goes_before f fair_share) jobs) v
  turn-Inv s now (looks_for_nodes jobs) h v e =
      looks_for_nodes-Inv s (is_empty (online_nodes s.parts.node_registry)) jobs v
  turn-Inv s now (places [] nodes) h v e = moved-Inv s sleeps v tt (λ _. refl)
  turn-Inv s now (places (job ∷ jobs) nodes) h v e =
      place_next-Inv s now job jobs nodes h v (candidates_of s (places (job ∷ jobs) nodes) v e)
  turn-Inv s now sleeps h v e = moved-Inv s tests v tt (λ _. refl)
  turn-Inv s now over h v e = moved-Inv s over v tt (going_of s over v e)

  pub turn_thread-Inv : (s : System pf) (now : ℕ) → 0 < now → Inv s → Inv (turn_thread now s)
  unfolding turn_thread
  turn_thread-Inv s now h v = elim (Option-cases s.engine.thread) [
    | inl e ↦ rw (e, turn_thread) v
    | inr (p, e) ↦ rw (e, turn_thread) (turn-Inv s now p h v e)
  ]
