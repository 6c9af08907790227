-- ===== src/Master/System/Invariant/Moves.antt =====
-- Every move keeps the invariant of the master.
use certos.Base.{
  ℕ, ◌<◌, Bool, true, false, some, ◌≡◌, ◌⊎◌, refl, sym, inl, inr, Text, Option-cases, Bool-cases,
  some_inj, subst, is_empty, txt,
}
use certos.Messages.{JobInfo, JobRequest, JobSpec}
use certos.Master.RequestStore.{RequestStore, RequestJson}
use certos.Master.KeyValue.{KvStore}
use certos.Master.Jobs.{JobManager, submit_job, cancel_job}
use certos.Master.Jobs.Calls
use certos.Master.Jobs.Calls.{Report, completes, fails}
use certos.Master.Jobs.Lifecycle
use certos.Master.JobCalls.{submit_job_call, cancel_job_call, username_of}
use certos.Master.Requests.{
  admin_review_request, submit_approved, store_review, target_json, reviewed,
}
use certos.Master.Nodes.{register_node, update_heartbeat}
use certos.Master.Nodes.Invariant.{register_node-Inv, update_heartbeat-Inv}
use certos.Master.Agents.{
  RegisterNodeRequest, HeartbeatRequest, register_node_call, send_heartbeat, node_info, report_job,
}
use certos.Master.Scheduler.Engine.{start}
use certos.Master.System
use certos.Master.System.{
  System, Platform, Move, with_jobs, with_nodes, with_engine, IsRegistered, IsHonest, Reach, starts,
  begins_stop, joins_stop, turns, submits, creates_user, requests_job, updates_request, reviews,
  cancels, registers, beats, reports_started, reports_completed, reports_failed, here,
}
use certos.Master.System.Invariant.{
  Inv, with_jobs-Inv, with_nodes-Inv, update_job_status-Inv, submit_job-Inv,
}
use certos.Master.System.Invariant.Active.{
  register_node-AreNamed, update_heartbeat-AreNamed, register_node-IsRegistered,
  update_heartbeat-IsRegistered, cancel_job-Placed,
}
use certos.Master.System.Invariant.Engine.{start-Inv, stop_begins-Inv, stop_joins-Inv}
use certos.Master.System.Invariant.Thread.{turn_thread-Inv}

module _ (rs : RequestStore) (js : RequestJson) (kv : KvStore) (draw : ℕ → ℕ) (now_job : ℕ) where
  -- The jobs are left, or one of the public user is submitted.
  abbrev pub MaySubmit : JobManager kv.Store → JobManager kv.Store → Type 0
  MaySubmit s after =
      (after ≡ s)
      ⊎ ((spec : JobSpec) × (name : Text) × (after
            ≡ (submit_job kv draw now_job spec (txt "public-user") name s).0))

  submit_approved-MaySubmit :
      (approve : Bool) (req : JobRequest) (s : JobManager kv.Store)
      → MaySubmit s (submit_approved rs js kv draw now_job approve req s)
  unfolding submit_approved
  submit_approved-MaySubmit true req s = inr (req.requested_spec, req.applicant_name, refl)
  submit_approved-MaySubmit false req s = inl refl

  store_review_jobs :
      (approve : Bool) (req : JobRequest) (st : rs.Store) (s : JobManager kv.Store)
      → (store_review rs js kv approve req st s).0.1 ≡ s
  unfolding store_review
  store_review_jobs approve req st s = elim (Option-cases (js.print req)) [
    | inl e ↦ rw (e, store_review) refl
    | inr (json, e) ↦ rw (e, store_review) refl
  ]

  pub review-MaySubmit :
      (now : ℕ) (request_id : Text) (approve : Bool) (comment : Text) (st : rs.Store)
      (s : JobManager kv.Store)
      → MaySubmit s
          (admin_review_request rs js kv draw now now_job request_id approve comment st s).0.1
  unfolding admin_review_request
  review-MaySubmit now request_id approve comment st s =
      let json = target_json rs js request_id st in
      let req = (js.parse json).0 in
      elim (Bool-cases (is_empty json)) [
        | inl e ↦ rw e (inl refl)
        | inr e ↦ elim (Bool-cases (js.parse json).1) [
          | inr p ↦ rw e (rw p (inl refl))
          | inl p ↦ rw e (
              rw p (
                subst (MaySubmit s)
                  (sym (
                    store_review_jobs approve (reviewed now approve comment req) st
                      (submit_approved rs js kv draw now_job approve req s)))
                  (submit_approved-MaySubmit approve req s)))
        ]
      ]

module _ {pf : Platform} (s : System pf) (v : Inv s) where
  open pf use {kv, rs, js, f, sort}

  -- What keeps the components and the engine.
  aside-Inv :
      (accounts : kv.Store) (requests : rs.Store)
      → Inv (record s { accounts = accounts; requests = requests })
  aside-Inv accounts requests = record {
    jobs = v.jobs;
    nodes = v.nodes;
    named = v.named;
    placed = v.placed;
    candidates = v.candidates;
    going = v.going;
  }

  cancel_job-Inv :
      (now : ℕ) (id : Text) → 0 < now → Inv (with_jobs (cancel_job now id s.parts.job_mgr).0 s)
  unfolding Calls.step
  cancel_job-Inv now id h =
      with_jobs-Inv s v (cancel_job now id s.parts.job_mgr).0
        (Lifecycle.step-Inv kv s.parts.job_mgr (Calls.cancels now id) h v.jobs)
        (cancel_job-Placed s.parts.node_registry now id s.parts.job_mgr v.placed)

  review-Inv :
      (draw : ℕ → ℕ) (now now_job : ℕ) (request_id : Text) (approve : Bool) (comment : Text)
      → 0 < now_job
      → Inv (
          with_jobs
            (admin_review_request rs js kv draw now now_job request_id approve comment s.requests
              s.parts.job_mgr).0.1
            s)
  review-Inv draw now now_job request_id approve comment h =
      elim (review-MaySubmit rs js kv draw now_job now request_id approve comment s.requests
        s.parts.job_mgr) [
          | inl e ↦ rw e v
          | inr (spec, name, e) ↦
              rw e (submit_job-Inv s v draw now_job spec (txt "public-user") name h)
        ]

  register_node_call-Inv :
      (draw now : ℕ → ℕ) (request : RegisterNodeRequest)
      → Inv (with_nodes (register_node_call draw now request s.parts.node_registry).0 s)
  unfolding register_node_call
  register_node_call-Inv draw now request =
      let info = node_info request in
      let nodes = s.parts.node_registry in
      with_nodes-Inv s v (register_node draw now info nodes).0
        (register_node-Inv draw now info nodes v.nodes)
        (register_node-AreNamed draw now info nodes v.nodes v.named)
        (register_node-IsRegistered draw now info nodes)

  send_heartbeat-Inv :
      (now : ℕ) (now_at : JobInfo → ℕ) (request : HeartbeatRequest)
      → Inv
          (with_nodes (send_heartbeat now now_at request s.parts.job_mgr s.parts.node_registry).0 s)
  unfolding send_heartbeat
  send_heartbeat-Inv now now_at request =
      let nodes = s.parts.node_registry in
      let free = request.available_resources in
      with_nodes-Inv s v (update_heartbeat now request.node_id free request.running_jobs nodes).0
        (update_heartbeat-Inv now request.node_id free request.running_jobs nodes v.nodes)
        (update_heartbeat-AreNamed now request.node_id free request.running_jobs nodes v.named)
        (update_heartbeat-IsRegistered now request.node_id free request.running_jobs nodes)

-- Where a move is made of a system, it leads to one that keeps the invariant.
pub step-Inv :
    {pf : Platform} (m : Move) (s : System pf)
    → Inv s
    → IsHonest m s
    → (t : System pf) → System.step m s ≡ some t
    → Inv t
unfolding System.step submit_job_call cancel_job_call report_job
step-Inv (starts interval_ms) s v h t e = elim (Option-cases (start interval_ms s.engine)) [
  | inl terminated ↦ cc (rw terminated at e)
  | inr (engine, e') ↦ subst Inv (some_inj (rw e' at e)) (start-Inv s v interval_ms engine e')
]
step-Inv begins_stop s v h t e = subst Inv (some_inj e) (stop_begins-Inv s v)
step-Inv joins_stop s v h t e = subst Inv (some_inj e) (stop_joins-Inv s v)
step-Inv (turns now) s v h t e = subst Inv (some_inj e) (turn_thread-Inv s now h v)
step-Inv (submits draw now metadata spec) s v h t e =
    let name = username_of metadata in
    subst Inv (some_inj e) (submit_job-Inv s v draw now spec name name h)
step-Inv (creates_user now username password role) s v h t e =
    subst Inv (some_inj e) (aside-Inv s v _ s.requests)
step-Inv (requests_job now number request) s v h t e =
    subst Inv (some_inj e) (aside-Inv s v s.accounts _)
step-Inv (updates_request request_id archive_path) s v h t e =
    subst Inv (some_inj e) (aside-Inv s v s.accounts _)
step-Inv (reviews draw now now_job request_id approve comment) s v h t e =
    let u = review-Inv s v draw now now_job request_id approve comment h in
    subst Inv (some_inj e) (aside-Inv _ u s.accounts _)
step-Inv (cancels now job_id) s v h t e = subst Inv (some_inj e) (cancel_job-Inv s v now job_id h)
step-Inv (registers draw now request) s v h t e =
    subst Inv (some_inj e) (register_node_call-Inv s v draw now request)
step-Inv (beats now now_at request) s v h t e =
    subst Inv (some_inj e) (send_heartbeat-Inv s v now now_at request)
step-Inv (reports_started now job_id node_id) s v (h, at) t e =
    subst Inv (some_inj e) (update_job_status-Inv s v now Report.starts job_id node_id h at)
step-Inv (reports_completed now job_id node_id) s v (h, at) t e =
    subst Inv (some_inj e) (update_job_status-Inv s v now completes job_id node_id h at)
step-Inv (reports_failed now job_id node_id) s v (h, at) t e =
    subst Inv (some_inj e) (update_job_status-Inv s v now fails job_id node_id h at)

-- Whatever the handlers and the scheduler's thread do, in any order, start and stop included, with
-- clocks later than the epoch and agents that report under ids that the registry has given out: from a
-- master that meets the invariant every master that is reached meets it. So the tables of jobs and
-- nodes meet theirs; a job that is assigned or running stands on a node that the registry has; the
-- nodes on which a pass places jobs are still in the registry; and while the engine is to run, its
-- thread is there.
pub Reach-Inv : {pf : Platform} (s t : System pf) → Inv s → Reach s t → Inv t
Reach-Inv s t v here = v
Reach-Inv s t v (Reach.next {t = u} r m h e) = step-Inv m u (Reach-Inv s u v r) h t e
