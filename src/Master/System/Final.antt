-- ===== src/Master/System/Final.antt =====
-- A job that is over, while the scheduler's thread does not hold it.
pub mod Moves
use mathlib.Core.Bool.{false≢true}
use certos.Base.{
  ℕ, Bool, true, false, not, List, [], ◌∷◌, Option, none, some, ◌≡◌, ◌≢◌, refl, sym, ap, ◌∙◌, inl,
  inr, Text, text_beq, text_beq_iff, find, arith, Option-cases, Bool-cases, some_inj, subst, All,
  All-of_mem, Memᴰ, if◌then◌else◌, is_empty, text_eq, All-mem,
}
use certos.Messages.{NodeInfo, JobInfo, JobStatus, JobSpec, queued, assigned, status_is}
use certos.Master.KeyValue.{KvStore}
use certos.Master.FairShare.{FairShareManager, apply_decay}
use certos.Master.Jobs.{
  JobManager, get_job, get_pending_jobs, set_status, update_job_status, cancel_job, is_over,
  new_job_id, submit_job,
}
use certos.Master.Jobs.Updates.{cancel_job_cases, get_job-update_job_status, get_job-submit_job}
use certos.Master.Jobs.Listing.{mem-get_pending_jobs}
use certos.Master.Jobs.Lifecycle
use certos.Master.Scheduler.{goes_before, place_on, online_nodes}
use certos.Master.Scheduler.Engine.{
  Components, Phase, tests, looks_for_jobs, decays, looks_for_nodes, places, sleeps, over, turn,
  place_next,
}
use certos.Master.System.{System, Platform, Move, turn_thread, step}
use certos.Master.System.Invariant.{Inv}

-- The jobs that the thread has read and not yet placed.
unfoldable pub held : Option Phase → List JobInfo
held (some (decays jobs)) = jobs
held (some (looks_for_nodes jobs)) = jobs
held (some (places jobs nodes)) = jobs
held _ = []

abbrev pub IsNot : Text → JobInfo → Type 0
IsNot id job = job.job_id ≢ id

-- The job is over, and the thread does not hold it.
pub record IsFinal {pf : Platform} (id : Text) (info : JobInfo) (s : System pf) : Type 0 where
  pub found : get_job id s.parts.job_mgr ≡ some info
  pub ended : is_over info.status ≡ true
  pub free : All (IsNot id) (held s.engine.thread)

-- What the sort yields is among what it is given.
abbrev pub SortsOnly : Platform → Type 0
SortsOnly pf =
    (before : JobInfo → JobInfo → Bool) (jobs : List JobInfo) (job : JobInfo)
    → Memᴰ job (pf.sort before jobs)
    → Memᴰ job jobs

queued_alive : (info : JobInfo) → info.status ≡ queued → is_over info.status ≡ false
unfolding status_is
queued_alive info e = rw e refl

module _ {S : Type 0} where
  -- A job that is over is not pending.
  pending_IsNot :
      (s : JobManager S) (id : Text) (info : JobInfo)
      → Lifecycle.Inv s
      → get_job id s ≡ some info
      → is_over info.status ≡ true
      → All (IsNot id) (get_pending_jobs s)
  unfolding get_job
  pending_IsNot s id info v found ended = All-of_mem (IsNot id) (get_pending_jobs s) λ job m same.
      let (k, at, is_queued) = (mem-get_pending_jobs s job v.distinct).0 m in
      let key = sym ((v.each k job at).named) ∙ same in
      let one : job ≡ info = some_inj (sym at ∙ ap (λ i. find i s.jobs) key ∙ found) in
      absurd
        (false≢true (sym (queued_alive job is_queued) ∙ ap (λ i. is_over i.status) one ∙ ended))

  pub other_update :
      (now : ℕ) (id' id : Text) (status : JobStatus) (node : Text) (s : JobManager S)
      → id' ≢ id
      → get_job id (update_job_status now id' status node s).0 ≡ get_job id s
  other_update now id' id status node s ne =
      elim (get_job-update_job_status now id' status node id s) [
        | inl (_, _, same) ↦ ap (get_job id) same
        | inr (_, _, _, after) ↦ elim (Bool-cases (text_beq id' id)) [
          | inl e ↦ absurd (ne ((text_beq_iff id' id).0 e))
          | inr e ↦ rw e at after
        ]
      ]

  pub over_cancel :
      (now : ℕ) (id' id : Text) (s : JobManager S) (info : JobInfo)
      → get_job id s ≡ some info
      → is_over info.status ≡ true
      → get_job id (cancel_job now id' s).0 ≡ some info
  over_cancel now id' id s info found ended = elim (cancel_job_cases now id' id s) [
    | inl (_, same, _) ↦ ap (get_job id) same ∙ found
    | inr (old, at, alive, _, after) ↦ elim (Bool-cases (text_beq id' id)) [
      | inl e ↦
          let key = (text_beq_iff id' id).0 e in
          let one : old ≡ info = some_inj (sym at ∙ ap (λ i. get_job i s) key ∙ found) in
          absurd (false≢true (sym alive ∙ ap (λ i. is_over i.status) one ∙ ended))
      | inr e ↦ rw e at after ∙ found
    ]
  ]

pub other_submit :
    (kv : KvStore) (draw : ℕ → ℕ) (now : ℕ) (spec : JobSpec) (user_id username id : Text)
    (s : JobManager kv.Store)
    → new_job_id draw ≢ id
    → get_job id (submit_job kv draw now spec user_id username s).0 ≡ get_job id s
unfolding submit_job
other_submit kv draw now spec user_id username id s ne =
    elim (Bool-cases (text_beq (new_job_id draw) id)) [
      | inl e ↦ absurd (ne ((text_beq_iff (new_job_id draw) id).0 e))
      | inr e ↦ rw e at (get_job-submit_job kv draw now spec user_id username s id)
    ]

module _ {pf : Platform} (id : Text) (info : JobInfo) (sorts_only : SortsOnly pf) where
  open pf use {kv, f, sort}

  abbrev moved : System pf → Components kv.Store f.D × Phase → System pf
  moved s (parts, p) = record s { engine = record (s.engine) { thread = some p }; parts = parts }

  holds :
      (s : System pf) (parts : Components kv.Store f.D) (p : Phase)
      → IsFinal id info s
      → get_job id parts.job_mgr ≡ get_job id s.parts.job_mgr
      → All (IsNot id) (held (some p))
      → IsFinal id info (moved s (parts, p))
  holds s parts p v same free = record { found = same ∙ v.found; ended = v.ended; free = free }

  -- A move that leaves the components, and goes to one phase or another.
  goes_to :
      (s : System pf) (b : Bool) (p q : Phase)
      → IsFinal id info s
      → All (IsNot id) (held (some p))
      → All (IsNot id) (held (some q))
      → IsFinal id info (moved s (s.parts, if b then p else q))
  goes_to s true p q v fp fq = holds s s.parts p v refl fp
  goes_to s false p q v fp fq = holds s s.parts q v refl fq

  place_next-IsFinal :
      (s : System pf) (now : ℕ) (job : JobInfo) (jobs : List JobInfo) (nodes : List NodeInfo)
      → IsFinal id info s
      → All (IsNot id) (job ∷ jobs)
      → IsFinal id info (moved s (place_next f sort now job jobs nodes s.parts))
  unfolding place_next held
  place_next-IsFinal s now job jobs nodes v (ne, free) =
      elim (Option-cases (place_on job.spec.resources nodes)) [
        | inl e ↦ rw (e, place_next) (holds s s.parts (places jobs nodes) v refl free)
        | inr ((k, nodes'), e) ↦
            rw (e, place_next)
              (holds s _ (places jobs nodes') v
                (other_update now job.job_id id assigned k s.parts.job_mgr ne) free)
      ]

  pub turn-IsFinal :
      (s : System pf) (now : ℕ) (p : Phase)
      → Inv s
      → IsFinal id info s
      → All (IsNot id) (held (some p))
      → IsFinal id info (moved s (turn f sort s.engine.running now p s.parts))
  unfolding turn held
  turn-IsFinal s now tests i v free = goes_to s s.engine.running looks_for_jobs over v tt tt
  turn-IsFinal s now looks_for_jobs i v free =
      let jobs = get_pending_jobs s.parts.job_mgr in
      goes_to s (is_empty jobs) sleeps (decays jobs) v tt
        (pending_IsNot s.parts.job_mgr id info i.jobs v.found v.ended)
  turn-IsFinal s now (decays jobs) i v free =
      let fair_share = apply_decay f now s.parts.fair_share in
      let sorted = sort (goes_before f fair_share) jobs in
      holds s (record (s.parts) { fair_share = fair_share }) (looks_for_nodes sorted) v refl
        (All-of_mem (IsNot id) sorted
          λ job m. All-mem (IsNot id) jobs free (sorts_only (goes_before f fair_share) jobs job m))
  turn-IsFinal s now (looks_for_nodes jobs) i v free =
      let nodes = online_nodes s.parts.node_registry in
      goes_to s (is_empty nodes) sleeps (places jobs nodes) v tt free
  turn-IsFinal s now (places [] nodes) i v free = holds s s.parts sleeps v refl tt
  turn-IsFinal s now (places (job ∷ jobs) nodes) i v free =
      place_next-IsFinal s now job jobs nodes v free
  turn-IsFinal s now sleeps i v free = holds s s.parts tests v refl tt
  turn-IsFinal s now over i v free = holds s s.parts over v refl tt
