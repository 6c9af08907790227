-- ===== src/Master/System/Final/Moves.antt =====
-- A job that is over stays as it is, whatever moves do not mention it.
use certos.Base.{
  ℕ, Bool, true, false, Option, none, some, ◌≡◌, ◌≢◌, refl, sym, ap, ◌∙◌, inl, inr, Text, txt,
  Option-cases, some_inj, subst, All,
}
use certos.Messages.{JobInfo, running, completed, failed}
use certos.Master.Jobs.{JobManager, get_job, new_job_id, is_over, submit_job, cancel_job}
use certos.Master.JobCalls.{submit_job_call, cancel_job_call, username_of}
use certos.Master.Requests.{admin_review_request}
use certos.Master.Agents.{report_job}
use certos.Master.Scheduler.Engine.{
  Phase, tests, looks_for_jobs, decays, looks_for_nodes, places, sleeps, over, SchedulerEngine,
  start, stop_begins, joined, stop_joins,
}
use certos.Master.System
use certos.Master.System.{
  System, Platform, Move, with_jobs, with_engine, IsHonest, starts, begins_stop, joins_stop, turns,
  submits, creates_user, requests_job, updates_request, reviews, cancels, registers, beats,
  reports_started, reports_completed, reports_failed, turn_thread,
}
use certos.Master.System.Invariant.{Inv}
use certos.Master.System.Invariant.Moves.{review-MaySubmit, step-Inv}
use certos.Master.System.Final.{
  held, IsNot, IsFinal, SortsOnly, other_update, over_cancel, other_submit, turn-IsFinal,
}

-- The move is no report of the job, and does not draw its id for another.
abbrev pub Leaves : Text → Move → Type 0
Leaves id (submits draw now metadata spec) = new_job_id draw ≢ id
Leaves id (reviews draw now now_job request_id approve comment) = new_job_id draw ≢ id
Leaves id (reports_started now job_id node_id) = job_id ≢ id
Leaves id (reports_completed now job_id node_id) = job_id ≢ id
Leaves id (reports_failed now job_id node_id) = job_id ≢ id
Leaves id _ = Unit

pub data ReachLeaving {pf : Platform} (id : Text) (s : System pf) : System pf → Type 0 where
  here : ReachLeaving id s s
  next :
      {t u : System pf}
      → ReachLeaving id s t
      → (m : Move) → IsHonest m t
      → Leaves id m
      → System.step m t ≡ some u
      → ReachLeaving id s u

start-held :
    (running : Bool) (old interval_ms : ℕ) (thread : Option Phase) (engine : SchedulerEngine)
    (id : Text)
    → start interval_ms (record { running = running; interval_ms = old; thread = thread })
      ≡ some engine
    → All (IsNot id) (held thread)
    → All (IsNot id) (held engine.thread)
unfolding start held
start-held true old interval_ms thread engine id e free =
    subst (λ x. All (IsNot id) (held x.thread)) (some_inj e) free
start-held false old interval_ms none engine id e free =
    subst (λ x. All (IsNot id) (held x.thread)) (some_inj e) tt
start-held false old interval_ms (some p) engine id e free = cc

stop_begins-held :
    (running : Bool) (interval_ms : ℕ) (thread : Option Phase)
    → held
        (stop_begins
          (record { running = running; interval_ms = interval_ms; thread = thread })).thread
      ≡ held thread
unfolding stop_begins
stop_begins-held true interval_ms thread = refl
stop_begins-held false interval_ms thread = refl

joined-held : (thread : Option Phase) → held (joined thread) ≡ held thread
unfolding held
joined-held none = refl
joined-held (some tests) = refl
joined-held (some looks_for_jobs) = refl
joined-held (some (decays jobs)) = refl
joined-held (some (looks_for_nodes jobs)) = refl
joined-held (some (places jobs nodes)) = refl
joined-held (some sleeps) = refl
joined-held (some over) = refl

module _ {pf : Platform} (id : Text) (info : JobInfo) where
  open pf use {kv, rs, js, f, sort}

  with_jobs-IsFinal :
      (s : System pf) (job_mgr : JobManager kv.Store)
      → IsFinal id info s
      → get_job id job_mgr ≡ some info
      → IsFinal id info (with_jobs job_mgr s)
  with_jobs-IsFinal s job_mgr v e = record { found = e; ended = v.ended; free = v.free }

  with_engine-IsFinal :
      (s : System pf) (engine : SchedulerEngine)
      → IsFinal id info s
      → All (IsNot id) (held engine.thread)
      → IsFinal id info (with_engine engine s)
  with_engine-IsFinal s engine v free = record { found = v.found; ended = v.ended; free = free }

  turn_thread-IsFinal :
      (s : System pf) (now : ℕ)
      → SortsOnly pf
      → Inv s
      → IsFinal id info s
      → IsFinal id info (turn_thread now s)
  unfolding turn_thread
  turn_thread-IsFinal s now sorts_only i v = elim (Option-cases s.engine.thread) [
    | inl e ↦ rw (e, turn_thread) v
    | inr (p, e) ↦
        rw (e, turn_thread)
          (turn-IsFinal id info sorts_only s now p i v
            (subst (λ t. All (IsNot id) (held t)) e v.free))
  ]

  review_same :
      (s : System pf) (draw : ℕ → ℕ) (now now_job : ℕ) (request_id : Text) (approve : Bool)
      (comment : Text)
      → new_job_id draw ≢ id
      → get_job id
          (admin_review_request rs js kv draw now now_job request_id approve comment s.requests
            s.parts.job_mgr).0.1
        ≡ get_job id s.parts.job_mgr
  review_same s draw now now_job request_id approve comment ne =
      elim (review-MaySubmit rs js kv draw now_job now request_id approve comment s.requests
        s.parts.job_mgr) [
          | inl e ↦ ap (get_job id) e
          | inr (spec, name, e) ↦
              ap (get_job id) e
              ∙ other_submit kv draw now_job spec (txt "public-user") name id s.parts.job_mgr ne
        ]

  step-IsFinal :
      (m : Move) (s : System pf)
      → SortsOnly pf
      → Inv s
      → IsFinal id info s
      → Leaves id m
      → (t : System pf) → System.step m s ≡ some t
      → IsFinal id info t
  unfolding System.step submit_job_call cancel_job_call report_job stop_joins
  step-IsFinal (starts interval_ms) s so i v h t e =
      elim (Option-cases (start interval_ms s.engine)) [
        | inl terminated ↦ cc (rw terminated at e)
        | inr (engine, e') ↦ subst (IsFinal id info) (some_inj (rw e' at e)) (
            with_engine-IsFinal s engine v (
              start-held s.engine.running s.engine.interval_ms interval_ms s.engine.thread engine id
                e' v.free))
      ]
  step-IsFinal begins_stop s so i v h t e = subst (IsFinal id info) (some_inj e) (
      with_engine-IsFinal s (stop_begins s.engine) v (
        subst (All (IsNot id))
          (sym (stop_begins-held s.engine.running s.engine.interval_ms s.engine.thread)) v.free))
  step-IsFinal joins_stop s so i v h t e = subst (IsFinal id info) (some_inj e) (
      with_engine-IsFinal s (stop_joins s.engine) v
        (subst (All (IsNot id)) (sym (joined-held s.engine.thread)) v.free))
  step-IsFinal (turns now) s so i v h t e =
      subst (IsFinal id info) (some_inj e) (turn_thread-IsFinal s now so i v)
  step-IsFinal (submits draw now metadata spec) s so i v h t e =
      let name = username_of metadata in
      subst (IsFinal id info) (some_inj e) (
        with_jobs-IsFinal s (submit_job kv draw now spec name name s.parts.job_mgr).0 v
          (other_submit kv draw now spec name name id s.parts.job_mgr h ∙ v.found))
  step-IsFinal (creates_user now username password role) s so i v h t e =
      subst (IsFinal id info) (some_inj e)
        (record { found = v.found; ended = v.ended; free = v.free })
  step-IsFinal (requests_job now number request) s so i v h t e =
      subst (IsFinal id info) (some_inj e)
        (record { found = v.found; ended = v.ended; free = v.free })
  step-IsFinal (updates_request request_id archive_path) s so i v h t e =
      subst (IsFinal id info) (some_inj e)
        (record { found = v.found; ended = v.ended; free = v.free })
  step-IsFinal (reviews draw now now_job request_id approve comment) s so i v h t e =
      subst (IsFinal id info) (some_inj e) (record {
        found = review_same s draw now now_job request_id approve comment h ∙ v.found;
        ended = v.ended;
        free = v.free;
      })
  step-IsFinal (cancels now job_id) s so i v h t e = subst (IsFinal id info) (some_inj e) (
      with_jobs-IsFinal s (cancel_job now job_id s.parts.job_mgr).0 v
        (over_cancel now job_id id s.parts.job_mgr info v.found v.ended))
  step-IsFinal (registers draw now request) s so i v h t e =
      subst (IsFinal id info) (some_inj e)
        (record { found = v.found; ended = v.ended; free = v.free })
  step-IsFinal (beats now now_at request) s so i v h t e =
      subst (IsFinal id info) (some_inj e)
        (record { found = v.found; ended = v.ended; free = v.free })
  step-IsFinal (reports_started now job_id node_id) s so i v h t e =
      subst (IsFinal id info) (some_inj e) (
        with_jobs-IsFinal s _ v
          (other_update now job_id id running node_id s.parts.job_mgr h ∙ v.found))
  step-IsFinal (reports_completed now job_id node_id) s so i v h t e =
      subst (IsFinal id info) (some_inj e) (
        with_jobs-IsFinal s _ v
          (other_update now job_id id completed node_id s.parts.job_mgr h ∙ v.found))
  step-IsFinal (reports_failed now job_id node_id) s so i v h t e =
      subst (IsFinal id info) (some_inj e) (
        with_jobs-IsFinal s _ v
          (other_update now job_id id failed node_id s.parts.job_mgr h ∙ v.found))

  both :
      (s t : System pf)
      → SortsOnly pf
      → Inv s
      → IsFinal id info s
      → ReachLeaving id s t
      → Inv t × IsFinal id info t
  both s t so i v here = (i, v)
  both s t so i v (ReachLeaving.next {t = u} r m h leaves e) =
      let (i', v') = both s u so i v r in
      (step-Inv m u i' h t e, step-IsFinal m u so i' v' leaves t e)

  -- An end is final, a cancellation included, once the scheduler's thread does not hold the job: in a
  -- master that meets the invariant, a job that is cancelled, completed or failed, and that the thread
  -- has not read as pending before, stays exactly as it is, whatever the handlers and the thread do in
  -- any order, as long as no report of that job comes and its id is not drawn again. This is where the
  -- sort yields none but the jobs that it is given, clocks are later than the epoch and agents report
  -- under ids that the registry has given out.
  pub over_stays :
      (s t : System pf)
      → SortsOnly pf
      → Inv s
      → get_job id s.parts.job_mgr ≡ some info
      → is_over info.status ≡ true
      → All (IsNot id) (held s.engine.thread)
      → ReachLeaving id s t
      → get_job id t.parts.job_mgr ≡ some info
  over_stays s t so i found ended free r =
      (both s t so i (record { found = found; ended = ended; free = free }) r).1.found
