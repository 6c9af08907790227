-- ===== src/Master/Scheduler/Engine/Alone.antt =====
-- The thread's moves through one pass, with no call of others between them.
use certos.Base.{
  ℕ, zero, suc, Bool, false, List, [], ◌∷◌, ◌≡◌, refl, sym, ap, ◌∙◌, inl, inr, length, is_empty,
  Bool-cases, Option-cases,
}
use certos.Messages.{NodeInfo, JobInfo, assigned}
use certos.Master.Double.{Double}
use certos.Master.FairShare.{apply_decay}
use certos.Master.Jobs.{get_pending_jobs, update_job_status}
use certos.Master.Scheduler.{goes_before, place_on, online_nodes, assign_jobs, schedule_pass}
use certos.Master.Scheduler.Engine.{
  Phase, looks_for_jobs, places, sleeps, Components, turn, place_next,
}

module _ {S : Type 0} (f : Double) (sort : (JobInfo → JobInfo → Bool) → List JobInfo → List JobInfo)
    (running : Bool) (now : ℕ) where
  open f use {D}

  unfoldable pub turns : ℕ → Phase → Components S D → Components S D × Phase
  turns zero p w = (w, p)
  turns (suc n) p w = let (w', p') = turn f sort running now p w in turns n p' w'

  -- The loop over the jobs is `assign_jobs`.
  turns-places :
      (jobs : List JobInfo) (nodes : List NodeInfo) (w : Components S D)
      → turns (suc (length jobs)) (places jobs nodes) w
        ≡ (record w { job_mgr = (assign_jobs now jobs nodes w.job_mgr).0 }, sleeps)
  unfolding turns turn assign_jobs place_next
  turns-places [] nodes w = refl
  turns-places (job ∷ jobs) nodes w = elim (Option-cases (place_on job.spec.resources nodes)) [
    | inl e ↦ rw (e, turns, assign_jobs, place_next) (turns-places jobs nodes w)
    | inr ((id, nodes'), e) ↦
        rw (e, turns, assign_jobs, place_next)
          (turns-places jobs nodes'
            (record w { job_mgr = (update_job_status now job.job_id assigned id w.job_mgr).0 }))
  ]

  abbrev pub passed : Components S D → Components S D
  passed w =
      let r = schedule_pass f sort now w.node_registry w.fair_share w.job_mgr in
      record w { job_mgr = r.0; fair_share = r.1 }

  module _ (w : Components S D) (some_jobs : is_empty (get_pending_jobs w.job_mgr) ≡ false)
      (some_online : is_empty (online_nodes w.node_registry) ≡ false) where
    sorted : List JobInfo
    sorted = sort (goes_before f (apply_decay f now w.fair_share)) (get_pending_jobs w.job_mgr)

    decayed : Components S D
    decayed = record w { fair_share = apply_decay f now w.fair_share }

    turns-to_places :
        (n : ℕ)
        → turns (suc (suc (suc n))) looks_for_jobs w
          ≡ turns n (places sorted (online_nodes w.node_registry)) decayed
    unfolding turns turn sorted decayed
    turns-to_places n = rw some_jobs (rw some_online refl)

    passed_lem : passed w ≡ record decayed {
      job_mgr = (assign_jobs now sorted (online_nodes w.node_registry) w.job_mgr).0;
    }
    unfolding schedule_pass sorted decayed
    passed_lem = rw some_jobs (rw some_online refl)

    turns-whole :
        turns (suc (suc (suc (suc (length sorted))))) looks_for_jobs w ≡ (passed w, sleeps)
    unfolding decayed
    turns-whole =
        turns-to_places (suc (length sorted))
        ∙ turns-places sorted (online_nodes w.node_registry) decayed
        ∙ ap (λ c. (c, sleeps)) (sym passed_lem)

  -- The moves of the thread from the head of `schedule_pass`, where no other call comes between, make a
  -- whole number of steps to the end of the pass, and do to the jobs and to fair share what
  -- `schedule_pass` does at once.
  pub turns-schedule_pass :
      (w : Components S D) → (n : ℕ) × (turns n looks_for_jobs w ≡ (passed w, sleeps))
  unfolding turns turn schedule_pass
  turns-schedule_pass w = elim (Bool-cases (is_empty (get_pending_jobs w.job_mgr))) [
    | inl e ↦ (1, rw e refl)
    | inr e ↦ elim (Bool-cases (is_empty (online_nodes w.node_registry))) [
      | inl none_online ↦ (3, rw e (rw none_online refl))
      | inr n ↦ (suc (suc (suc (suc (length (sorted w e n))))), turns-whole w e n)
    ]
  ]
