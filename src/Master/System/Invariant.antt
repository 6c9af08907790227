-- ===== src/Master/System/Invariant.antt =====
-- What holds of the master after any moves.
pub mod Active
pub mod Engine
pub mod Thread
pub mod Moves
use certos.Base.{
  ℕ, ◌<◌, Bool, true, false, List, [], ◌∷◌, Option, none, some, ◌≡◌, ◌≢◌, refl, sym, ap, ◌∙◌, inl,
  inr, Text, find, Each, All, arith, Option-cases, Bool-cases, some_inj, subst, is_empty,
  All-of_mem, find_of_mem-values,
}
use certos.Messages.{JobSpec, NodeInfo, JobInfo, assigned, running, completed, failed}
use certos.Master.Jobs.{JobManager, submit_job, update_job_status, cancel_job}
use certos.Master.Jobs.Calls
use certos.Master.Jobs.Calls.{
  Report, reported, submits, updates, cancels, assigns, starts, completes, fails,
}
use certos.Master.Jobs.Lifecycle
use certos.Master.Jobs.Lifecycle.{step-Inv}
use certos.Master.Nodes.{NodeRegistry}
use certos.Master.Nodes.Invariant
use certos.Master.Nodes.Invariant.{register_node-Inv, update_heartbeat-Inv}
use certos.Master.Scheduler.{place_on, online_nodes}
use certos.Master.Scheduler.Pass.{place_on_keeps_ids, online_node}
use certos.Master.Scheduler.Engine.{
  Phase, tests, looks_for_jobs, decays, looks_for_nodes, places, sleeps, over, turn, place_next,
  SchedulerEngine, start, stop_begins, stop_joins,
}
use certos.Master.System.{
  System, Platform, with_jobs, with_nodes, with_engine, Move, IsRegistered, IsHonest, step,
  turn_thread, Reach,
}
use certos.Master.System.Invariant.Active.{
  Placed, AreNamed, register_node-AreNamed, update_heartbeat-AreNamed, register_node-IsRegistered,
  update_heartbeat-IsRegistered, submit_job-Placed, cancel_job-Placed, update_job_status-Placed,
}

-- The thread is there and has not returned.
unfoldable pub is_going : Option Phase → Bool
is_going none = false
is_going (some over) = false
is_going (some _) = true

-- The nodes on which the thread places jobs.
unfoldable pub chosen : Option Phase → List NodeInfo
chosen (some (places jobs nodes)) = nodes
chosen _ = []

-- The tables meet their invariants; a job that is assigned or running stands on a node that the registry
-- has, and the thread chooses among such; and while `running_` is set, the thread is there.
pub record Inv {pf : Platform} (s : System pf) : Type 0 where
  pub jobs : Lifecycle.Inv s.parts.job_mgr
  pub nodes : Invariant.Inv s.parts.node_registry
  pub named : AreNamed s.parts.node_registry
  pub placed : Each (Placed s.parts.node_registry) s.parts.job_mgr.jobs
  pub candidates :
      All (λ node. IsRegistered node.node_id s.parts.node_registry) (chosen s.engine.thread)
  pub going : s.engine.running ≡ true → is_going s.engine.thread ≡ true

All-map {ℓ κ μ} :
    {A : Type ℓ} (P : A → Type κ) (Q : A → Type μ) (xs : List A)
    → ((x : A) → P x → Q x)
    → All P xs
    → All Q xs
All-map P Q [] h _ = tt
All-map P Q (x ∷ xs) h (p, ps) = (h x p, All-map P Q xs h ps)

module _ {pf : Platform} (s : System pf) (v : Inv s) where
  open pf use {kv, rs, js, f, sort}

  -- A change of the jobs.
  pub with_jobs-Inv :
      (job_mgr : JobManager kv.Store)
      → Lifecycle.Inv job_mgr
      → Each (Placed s.parts.node_registry) job_mgr.jobs
      → Inv (with_jobs job_mgr s)
  with_jobs-Inv job_mgr i p = record {
    jobs = i;
    nodes = v.nodes;
    named = v.named;
    placed = p;
    candidates = v.candidates;
    going = v.going;
  }

  -- A change of the registry that removes no node.
  pub with_nodes-Inv :
      (nodes : NodeRegistry)
      → Invariant.Inv nodes
      → AreNamed nodes
      → ((j : Text) → IsRegistered j s.parts.node_registry → IsRegistered j nodes)
      → Inv (with_nodes nodes s)
  with_nodes-Inv nodes i n keeps = record {
    jobs = v.jobs;
    nodes = i;
    named = n;
    placed = λ key info at active. keeps info.assigned_node_id (v.placed key info at active);
    candidates =
        All-map (λ node. IsRegistered node.node_id s.parts.node_registry)
          (λ node. IsRegistered node.node_id nodes) (chosen s.engine.thread)
          (λ node. keeps node.node_id) v.candidates;
    going = v.going;
  }

  -- An update of a job by someone who names a node of the registry.
  pub update_job_status-Inv :
      (now : ℕ) (r : Report) (id node : Text)
      → 0 < now
      → IsRegistered node s.parts.node_registry
      → Inv (with_jobs (update_job_status now id (reported r) node s.parts.job_mgr).0 s)
  unfolding Calls.step
  update_job_status-Inv now r id node h (n, at) =
      with_jobs-Inv (update_job_status now id (reported r) node s.parts.job_mgr).0
        (step-Inv kv s.parts.job_mgr (updates now id r node) h v.jobs)
        (update_job_status-Placed s.parts.node_registry now id (reported r) node s.parts.job_mgr
          (v.named node n at) (n, at) v.placed)

  pub submit_job-Inv :
      (draw : ℕ → ℕ) (now : ℕ) (spec : JobSpec) (user_id username : Text)
      → 0 < now
      → Inv (with_jobs (submit_job kv draw now spec user_id username s.parts.job_mgr).0 s)
  unfolding Calls.step
  submit_job-Inv draw now spec user_id username h =
      with_jobs-Inv (submit_job kv draw now spec user_id username s.parts.job_mgr).0
        (step-Inv kv s.parts.job_mgr (submits draw now spec user_id username) h v.jobs)
        (submit_job-Placed s.parts.node_registry kv draw now spec user_id username s.parts.job_mgr
          v.placed)
