-- ===== src/Master/System/Through.antt =====
-- A job on its way from the client through the scheduler to an agent and back.
use certos.Base.{
  ℕ, Bool, true, false, List, [], ◌∷◌, Option, some, ◌≡◌, refl, sym, ap, ◌∙◌, subst, Text, is_empty,
  text_eq,
}
use certos.Master.Nodes.{NodeRegistry}
use certos.Messages.{
  ResourceSpec, JobInfo, JobSpec, NodeInfo, assigned, running, completed, status_is,
}
use certos.Master.KeyValue.{KvStore}
use certos.Master.Double.{Double}
use certos.Master.Rpc.{ok}
use certos.Master.Jobs.{
  JobManager, new_job_id, submitted_info, submit_job, get_job, list_jobs, get_pending_jobs,
  set_status,
}
use certos.Master.JobCalls.{get_job_status, submit_job_call, username_of}
use certos.Master.Agents.Reports.{
  stored, stored_lem, find-stored, pending-stored, assigned-stored_not, report_stored, fetch_stored,
}
use certos.Master.Agents.{fetch_job, report_job, report_job_started, report_job_completed}
use certos.Master.FairShare.{FairShareManager, apply_decay}
use certos.Master.Scheduler.{goes_before, place_on, online_nodes, assign_jobs, schedule_pass}
use certos.Master.Scheduler.Engine.{Components, looks_for_jobs, sleeps}
use certos.Master.Scheduler.Engine.Alone.{turns, turns-schedule_pass}

place_on-some :
    (req : ResourceSpec) (nodes : List NodeInfo) {r : Text × List NodeInfo}
    → place_on req nodes ≡ some r
    → is_empty nodes ≡ false
unfolding place_on
place_on-some req [] e = cc
place_on-some req (node ∷ nodes) e = refl

-- What becomes of the job, from its submission to its end.
abbrev pub finished_info : (ℕ → ℕ) → ℕ → ℕ → ℕ → Option Text → JobSpec → Text → JobInfo
finished_info draw t_submit t_start t_end metadata spec node =
    record (submitted_info (new_job_id draw) t_submit spec (username_of metadata)
      (username_of metadata)) {
        status = completed;
        assigned_node_id = node;
        started_at = t_start;
        completed_at = t_end;
      }

module _ (kv : KvStore) (f : Double)
    (sort : (JobInfo → JobInfo → Bool) → List JobInfo → List JobInfo) where
  open kv use {Store}
  open f use {D}

  -- The pass with one pending job, for which there is a node.
  pass_one :
      (now : ℕ) (job : JobInfo) (node : Text) (nodes' : List NodeInfo) (registry : NodeRegistry)
      (fair : FairShareManager D) (s : JobManager Store)
      → get_pending_jobs (stored job.job_id job s) ≡ job ∷ []
      → ((before : JobInfo → JobInfo → Bool) (j : JobInfo) → sort before (j ∷ []) ≡ j ∷ [])
      → place_on job.spec.resources (online_nodes registry) ≡ some (node, nodes')
      → (schedule_pass f sort now registry fair (stored job.job_id job s)).0
        ≡ stored job.job_id (set_status now assigned node job) (stored job.job_id job s)
  unfolding schedule_pass assign_jobs stored
  pass_one now job node nodes' registry fair s pending alone free =
      rw
        (
          pending,
          place_on-some job.spec.resources (online_nodes registry) free,
          alone (goes_before f (apply_decay f now fair)) job,
          assign_jobs,
          free,
          stored_lem now job.job_id assigned node job (stored job.job_id job s)
              (find-stored job.job_id job s),
        )
        refl

  -- The agent's calls on a manager on which the job has been placed.
  abbrev IsServed : (t_start t_end : ℕ) (node : Text) (final : JobInfo) → JobManager Store → Type 0
  IsServed t_start t_end node final s =
      let started = report_job_started t_start final.job_id node s in
      let ended = report_job_completed t_end final.job_id node started.0 in
      (fetch_job node s ≡ ok (record { has_job = true; job_id = final.job_id; spec = final.spec }))
      × (started.1 ≡ ok (record { success = true; message = [] }))
      × (ended.1 ≡ ok (record { success = true; message = [] }))
      × (get_job_status kv final.job_id ended.0 ≡ ok final)

  status-stored :
      (id : Text) (info : JobInfo) (s : JobManager Store)
      → get_job_status kv id (stored id info s) ≡ ok info
  unfolding get_job_status get_job
  status-stored id info s = rw (find-stored id info s, get_job_status) refl

  placed-IsServed :
      (draw : ℕ → ℕ) (t_submit t_pass t_start t_end : ℕ) (metadata : Option Text) (spec : JobSpec)
      (node : Text) (base : JobManager Store)
      → list_jobs assigned base ≡ []
      → is_empty node ≡ false
      → let id = new_job_id draw in
        let user = username_of metadata in
        let job = submitted_info id t_submit spec user user in
        IsServed t_start t_end node
          (finished_info draw t_submit t_start t_end metadata spec node)
          (stored id (set_status t_pass assigned node job) (stored id job base))
  unfolding set_status status_is
  placed-IsServed draw t_submit t_pass t_start t_end metadata spec node base unplaced named =
      let id = new_job_id draw in
      let user = username_of metadata in
      let job = submitted_info id t_submit spec user user in
      let placed = record job { status = assigned; assigned_node_id = node } in
      let mid = stored id job base in
      let going = record placed { status = running; started_at = t_start } in
      let started : report_job running t_start id node (stored id placed mid)
          ≡ (stored id going (stored id placed mid), ok (record { success = true; message = [] })) =
        rw named at (report_stored running t_start id node placed mid) in
      let ended = report_stored completed t_end id node going (stored id placed mid) in
      rw named (
        fetch_stored id node placed mid (assigned-stored_not id job base refl unplaced) refl refl,
        ap (λ r. r.1) started,
        rw started (ap (λ r. r.1) ended),
        rw started (
            rw ended (
              status-stored id (finished_info draw t_submit t_start t_end metadata spec node)
                (stored id going (stored id placed mid)))),
      )

  -- Where no job is pending or assigned, a job that is submitted reaches its end: if the pass finds a
  -- node with an id for it, then after a number of moves of the thread, with no call of others between
  -- them, the thread sleeps, that node's fetch returns the job's id and spec, the node's reports that
  -- it has started and that it is completed succeed, and the job's status is then completed, on that
  -- node, with the client's user, the spec and the times of the submission, the start and the end. The
  -- sort is asked to leave a list of one job as it is, and `running_` is true throughout.
  pub job_goes_through :
      (draw : ℕ → ℕ) (t_submit t_pass t_start t_end : ℕ) (metadata : Option Text) (spec : JobSpec)
      (node : Text) (nodes' : List NodeInfo) (w : Components Store D)
      → get_pending_jobs w.job_mgr ≡ []
      → list_jobs assigned w.job_mgr ≡ []
      → ((before : JobInfo → JobInfo → Bool) (j : JobInfo) → sort before (j ∷ []) ≡ j ∷ [])
      → place_on spec.resources (online_nodes w.node_registry) ≡ some (node, nodes')
      → is_empty node ≡ false
      → let id = new_job_id draw in
        let submission = submit_job_call kv draw t_submit metadata spec w.job_mgr in
        (n : ℕ) × let moved =
            turns f sort true t_pass n looks_for_jobs (record w { job_mgr = submission.0 }) in
          let started = report_job_started t_start id node moved.0.job_mgr in
          let ended = report_job_completed t_end id node started.0 in
          (moved.1 ≡ sleeps)
          × (fetch_job node moved.0.job_mgr
              ≡ ok (record { has_job = true; job_id = id; spec = spec }))
          × (started.1 ≡ ok (record { success = true; message = [] }))
          × (ended.1 ≡ ok (record { success = true; message = [] }))
          × (get_job_status kv id ended.0
              ≡ ok (finished_info draw t_submit t_start t_end metadata spec node))
  unfolding submit_job_call submit_job stored
  job_goes_through draw t_submit t_pass t_start t_end metadata spec node nodes' w idle unplaced
        alone free named =
      let id = new_job_id draw in
      let user = username_of metadata in
      let job = submitted_info id t_submit spec user user in
      let submission = submit_job_call kv draw t_submit metadata spec w.job_mgr in
      let base = record (w.job_mgr) { db = submission.0.db } in
      let (n, all) = turns-schedule_pass f sort true t_pass (record w { job_mgr = submission.0 }) in
      let at =
        pass_one t_pass job node nodes' w.node_registry w.fair_share base
          (pending-stored id job base refl (unfold get_pending_jobs list_jobs in idle)) alone
          free in
      let (fetches, starts, ends, final) =
        subst
          (IsServed t_start t_end node
            (finished_info draw t_submit t_start t_end metadata spec node))
          (sym (ap (λ r. r.0.job_mgr) all ∙ at))
          (placed-IsServed draw t_submit t_pass t_start t_end metadata spec node base
            (unfold list_jobs in unplaced) named) in
      (n, (ap (λ r. r.1) all, fetches, starts, ends, final))
