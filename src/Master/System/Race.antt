-- ===== src/Master/System/Race.antt =====
-- A cancellation that comes between two moves of the scheduler's thread.
use mathlib.Core.Bool.{false≢true}
use certos.Base.{
  ℕ, true, false, List, [], ◌∷◌, some, ◌≡◌, ◌≢◌, refl, sym, ap, ◌∙◌, inl, inr, Text, txt,
  text_beq_refl, some_inj, text_eq,
}
use certos.Messages.{NodeInfo, JobInfo, JobStatus, assigned}
use certos.Master.Rpc.{ok}
use certos.Master.Jobs.{JobManager, get_job, set_status, update_job_status, cancel_job, is_over}
use certos.Master.Jobs.Updates.{cancel_job_cases, cancelled_info, get_job-update_job_status}
use certos.Master.JobCalls.{cancel_job_call}
use certos.Master.Scheduler.{place_on}
use certos.Master.Scheduler.Engine.{places, turn, place_next}
use certos.Master.System.{System, Platform, with_jobs, cancels, turns, step, turn_thread}

-- What a scheduler's update makes of a cancelled job.
assigned_again :
    (now later : ℕ) (id : Text) (info : JobInfo)
    → id ≢ []
    → let after = set_status later assigned id (cancelled_info now info) in
      (after.status ≡ assigned) × (after.assigned_node_id ≡ id) × (after.completed_at ≡ now)
unfolding set_status
assigned_again now later [] info ne = absurd (ne refl)
assigned_again now later (c ∷ id) info ne = (refl, refl, refl)

module _ {S : Type 0} where
  updated :
      (now : ℕ) (status : JobStatus) (job_id id : Text) (s : JobManager S) (info : JobInfo)
      → get_job job_id s ≡ some info
      → get_job job_id (update_job_status now job_id status id s).0
        ≡ some (set_status now status id info)
  updated now status job_id id s info found =
      elim (get_job-update_job_status now job_id status id job_id s) [
        | inl (_, missing, _) ↦ cc
        | inr (old, e, _, after) ↦
            let same : old ≡ info = some_inj (sym e ∙ found) in
            rw (text_beq_refl job_id) at after ∙ ap (λ i. some (set_status now status id i)) same
      ]

  -- A cancellation that succeeds, and an update by the scheduler right after it.
  cancelled_then_assigned :
      (now later : ℕ) (job_id id : Text) (s : JobManager S) (info : JobInfo)
      → get_job job_id s ≡ some info
      → is_over info.status ≡ false
      → ((cancel_job now job_id s).1 ≡ true)
        × (get_job job_id (update_job_status later job_id assigned id (cancel_job now job_id s).0).0
            ≡ some (set_status later assigned id (cancelled_info now info)))
  cancelled_then_assigned now later job_id id s info found alive =
      elim (cancel_job_cases now job_id job_id s) [
        | inl (_, _, inl missing) ↦ cc
        | inl (_, _, inr (old, e, ended)) ↦
            let same : info ≡ old = some_inj (sym found ∙ e) in
            absurd (false≢true (sym alive ∙ ap (λ i. is_over i.status) same ∙ ended))
        | inr (old, e, _, done, after) ↦
            let same : old ≡ info = some_inj (sym e ∙ found) in
            (
              done,
              updated later assigned job_id id (cancel_job now job_id s).0 (cancelled_info now info)
                  (rw (text_beq_refl job_id) at after ∙ ap (λ i. some (cancelled_info now i)) same),
            )
      ]

placed_by_turn :
    {pf : Platform} (t : System pf) (now : ℕ) (job : JobInfo) (jobs : List JobInfo)
    (nodes nodes' : List NodeInfo) (id : Text)
    → t.engine.thread ≡ some (places (job ∷ jobs) nodes)
    → place_on job.spec.resources nodes ≡ some (id, nodes')
    → get_job job.job_id (turn_thread now t).parts.job_mgr
      ≡ get_job job.job_id (update_job_status now job.job_id assigned id t.parts.job_mgr).0
unfolding turn_thread turn place_next
placed_by_turn t now job jobs nodes nodes' id at room =
    rw (at, turn_thread) (rw (room, place_next) refl)

module _ {pf : Platform} (s : System pf) where
  open pf use {kv, f, sort}

  -- The thread of the scheduler is about to place a job, and there is a node with room for it; the job
  -- is neither over nor unknown. A client then cancels it, and is told that it is marked for
  -- cancellation. The thread's next move assigns it to that node all the same: the job is again in the
  -- table as assigned, with the time of its cancellation as its end.
  pub cancelled_while_placed :
      (now later : ℕ) (job info : JobInfo) (jobs : List JobInfo) (nodes nodes' : List NodeInfo)
      (id : Text)
      → s.engine.thread ≡ some (places (job ∷ jobs) nodes)
      → place_on job.spec.resources nodes ≡ some (id, nodes')
      → id ≢ []
      → get_job job.job_id s.parts.job_mgr ≡ some info
      → is_over info.status ≡ false
      → ((cancel_job_call kv now job.job_id s.parts.job_mgr).1
          ≡ ok (record { success = true; message = txt "Job marked for cancellation" }))
        × ((t : System pf) × (u : System pf) × (after : JobInfo) × (step (cancels now job.job_id) s
              ≡ some t)
            × (step (turns later) t ≡ some u)
            × (get_job job.job_id u.parts.job_mgr ≡ some after)
            × (after.status ≡ assigned)
            × (after.assigned_node_id ≡ id)
            × (after.completed_at ≡ now))
  unfolding step cancel_job_call
  cancelled_while_placed now later job info jobs nodes nodes' id at room ne found alive =
      let (done, again) =
        cancelled_then_assigned now later job.job_id id s.parts.job_mgr info found alive in
      let (status, node, ended) = assigned_again now later id info ne in
      let t = with_jobs (cancel_job now job.job_id s.parts.job_mgr).0 s in
      (
        rw done refl,
        (
          t,
          turn_thread later t,
          set_status later assigned id (cancelled_info now info),
          refl,
          refl,
          placed_by_turn t later job jobs nodes nodes' id at room ∙ again,
          status,
          node,
          ended,
        ),
      )
