-- ===== src/Master/Scheduler/Engine/Ends.antt =====
-- That the thread ends once `running_` is false.
use mathlib.Core.Option
use certos.Base.{
  ℕ, zero, suc, Bool, true, false, List, [], ◌∷◌, none, some, ◌≡◌, refl, inl, inr, is_empty,
  Bool-cases, Option-cases,
}
use certos.Messages.{NodeInfo, JobInfo}
use certos.Master.Double.{Double}
use certos.Master.Jobs.{get_pending_jobs}
use certos.Master.Scheduler.{place_on, online_nodes}
use certos.Master.Scheduler.Engine.{
  Phase, tests, looks_for_jobs, decays, looks_for_nodes, places, sleeps, over, Components,
  SchedulerEngine, start, stop_begins, stop_joins, turn, place_next,
}

module _ {S : Type 0} (f : Double)
    (sort : (JobInfo → JobInfo → Bool) → List JobInfo → List JobInfo) where
  open f use {D}

  -- Where the thread is after some moves, with `running_` false. `found k` is what it finds at its move
  -- `k`, whatever others have done to it before, and `now k` its reading of the clock.
  unfoldable pub phase_after : (ℕ → Components S D) → (ℕ → ℕ) → ℕ → Phase → Phase
  phase_after found now zero p = p
  phase_after found now (suc n) p =
      phase_after (λ k. found (suc k)) (λ k. now (suc k)) n
        (turn f sort false (now 0) p (found 0)).1

  abbrev Ends : (ℕ → Components S D) → (ℕ → ℕ) → Phase → Type 0
  Ends found now p = (n : ℕ) × (phase_after found now n p ≡ over)

  -- It ends if it ends after one move.
  one_more :
      (found : ℕ → Components S D) (now : ℕ → ℕ) (p q : Phase)
      → (turn f sort false (now 0) p (found 0)).1 ≡ q
      → Ends (λ k. found (suc k)) (λ k. now (suc k)) q
      → Ends found now p
  unfolding phase_after
  one_more found now p q e (n, h) = (suc n, rw e h)

  tests-Ends : (found : ℕ → Components S D) (now : ℕ → ℕ) → Ends found now tests
  unfolding turn phase_after
  tests-Ends found now = (1, refl)

  sleeps-Ends : (found : ℕ → Components S D) (now : ℕ → ℕ) → Ends found now sleeps
  unfolding turn phase_after
  sleeps-Ends found now = (2, refl)

  places-Ends :
      (jobs : List JobInfo) (nodes : List NodeInfo) (found : ℕ → Components S D) (now : ℕ → ℕ)
      → Ends found now (places jobs nodes)
  unfolding turn place_next
  places-Ends [] nodes found now =
      one_more found now (places [] nodes) sleeps refl (sleeps-Ends _ _)
  places-Ends (job ∷ jobs) nodes found now =
      elim (Option-cases (place_on job.spec.resources nodes)) [
        | inl e ↦
            one_more found now (places (job ∷ jobs) nodes) (places jobs nodes)
              (rw (e, turn, place_next) refl) (places-Ends jobs nodes _ _)
        | inr ((id, nodes'), e) ↦
            one_more found now (places (job ∷ jobs) nodes) (places jobs nodes')
              (rw (e, turn, place_next) refl) (places-Ends jobs nodes' _ _)
      ]

  looks_for_nodes-Ends :
      (jobs : List JobInfo) (found : ℕ → Components S D) (now : ℕ → ℕ)
      → Ends found now (looks_for_nodes jobs)
  unfolding turn
  looks_for_nodes-Ends jobs found now =
      let nodes = online_nodes (found 0).node_registry in
      elim (Bool-cases (is_empty nodes)) [
        | inl e ↦ one_more found now (looks_for_nodes jobs) sleeps (rw e refl) (sleeps-Ends _ _)
        | inr e ↦
            one_more found now (looks_for_nodes jobs) (places jobs nodes) (rw e refl)
              (places-Ends jobs nodes _ _)
      ]

  decays-Ends :
      (jobs : List JobInfo) (found : ℕ → Components S D) (now : ℕ → ℕ)
      → Ends found now (decays jobs)
  unfolding turn
  decays-Ends jobs found now = one_more found now (decays jobs) _ refl (looks_for_nodes-Ends _ _ _)

  pub phase_after_over :
      (found : ℕ → Components S D) (now : ℕ → ℕ) (p : Phase)
      → (n : ℕ) × (phase_after found now n p ≡ over)
  unfolding turn phase_after
  phase_after_over found now tests = tests-Ends found now
  phase_after_over found now looks_for_jobs =
      let jobs = get_pending_jobs (found 0).job_mgr in
      elim (Bool-cases (is_empty jobs)) [
        | inl e ↦ one_more found now looks_for_jobs sleeps (rw e refl) (sleeps-Ends _ _)
        | inr e ↦ one_more found now looks_for_jobs (decays jobs) (rw e refl) (decays-Ends jobs _ _)
      ]
  phase_after_over found now (decays jobs) = decays-Ends jobs found now
  phase_after_over found now (looks_for_nodes jobs) = looks_for_nodes-Ends jobs found now
  phase_after_over found now (places jobs nodes) = places-Ends jobs nodes found now
  phase_after_over found now sleeps = sleeps-Ends found now
  phase_after_over found now over = (0, refl)

  -- The engine after some moves of its thread.
  abbrev pub moved : (ℕ → Components S D) → (ℕ → ℕ) → ℕ → SchedulerEngine → SchedulerEngine
  moved found now n engine = record engine {
    thread = Option.map (phase_after found now n) engine.thread;
  }

  -- `stop` of an engine that runs returns. Once it has set `running_` to false, in whatever phase the
  -- thread is, and whatever others do to the jobs, the nodes and fair share between its moves, after
  -- some number of moves the join is over: the engine has no thread and does not run, and can be
  -- started again.
  pub stop_returns :
      (found : ℕ → Components S D) (now : ℕ → ℕ) (interval_ms : ℕ) (engine : SchedulerEngine)
      (p : Phase)
      → engine.running ≡ true
      → engine.thread ≡ some p
      → (n : ℕ) × (let stopped = stop_joins (moved found now n (stop_begins engine)) in
          (stopped.thread ≡ none)
          × (stopped.running ≡ false)
          × (start interval_ms stopped
              ≡ some (record { running = true; interval_ms = interval_ms; thread = some tests })))
  unfolding stop_begins stop_joins start
  stop_returns found now interval_ms engine p r e =
      let (n, ended) = phase_after_over found now p in
      (n, rw r (rw e (rw ended (refl, refl, refl))))
