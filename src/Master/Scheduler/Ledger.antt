-- ===== src/Master/Scheduler/Ledger.antt =====
-- The loops over jobs and nodes against a ledger. In the source a placement is deducted from a copy of the
-- node; the ledger leaves the nodes as they are, and writes down for each which requests it was given.
use certos.Base.{
  ℕ, ◌+◌, ◌-◌, Bool, true, List, [], ◌∷◌, map, Option, none, some, ◌≡◌, refl, ap, ◌∙◌, inl, inr,
  Text, All, if◌then◌else◌, arith, leb, ◌&&◌, Option-cases, Bool-cases, some_inj, subst, sym,
}
use certos.Messages.{NodeInfo, JobInfo, ResourceSpec, assigned}
use certos.Master.Jobs.{JobManager, update_job_status}
use certos.Master.Resources.{fits}
use certos.Master.Scheduler.{deduct, behind, place_on, assign_jobs}
use certos.Master.Scheduler.Plan.{apply_plan}

-- A node, and the requests that it was given.
pub record Entry : Type 0 where
  pub node : NodeInfo
  pub given : List ResourceSpec

abbrev pub total : (ResourceSpec → ℕ) → List ResourceSpec → ℕ
total q [] = 0
total q (req ∷ given) = q req + total q given

-- The requests do not exceed what the node has of any kind.
abbrev pub within : List ResourceSpec → NodeInfo → Bool
within given node =
    leb (total (λ r. r.cpu_cores) given) node.available_resources.cpu_cores
    && leb (total (λ r. r.ram_mb) given) node.available_resources.ram_mb
    && leb (total (λ r. r.gpu_count) given) node.available_resources.gpu_count

abbrev pub Sound : List Entry → Type 0
Sound ledger = All (λ e. within e.given e.node ≡ true) ledger

abbrev pub after_entry : Entry → Option (Text × List Entry) → Option (Text × List Entry)
after_entry e none = none
after_entry e (some (id, ledger)) = some (id, e ∷ ledger)

-- The first node that can take the request with those that it was given before.
unfoldable pub choose : ResourceSpec → List Entry → Option (Text × List Entry)
choose req [] = none
choose req (e ∷ ledger) =
    if within (req ∷ e.given) e.node
    then some (e.node.node_id, record e { given = req ∷ e.given } ∷ ledger)
    else after_entry e (choose req ledger)

-- The placements of the jobs in turn, and the ledger at the end.
unfoldable pub first_fit : List JobInfo → List Entry → List (JobInfo × Text) × List Entry
first_fit [] ledger = ([], ledger)
first_fit (job ∷ jobs) ledger = elim (choose job.spec.resources ledger) [
  | none ↦ first_fit jobs ledger
  | some (id, ledger') ↦ let (p, l) = first_fit jobs ledger' in ((job, id) ∷ p, l)
]

-- The copy of the node at this point: what it has, less what it was given.
abbrev pub copy : Entry → NodeInfo
copy e = record (e.node) {
  available_resources = record (e.node.available_resources) {
    cpu_cores = e.node.available_resources.cpu_cores - total (λ r. r.cpu_cores) e.given;
    ram_mb = e.node.available_resources.ram_mb - total (λ r. r.ram_mb) e.given;
    gpu_count = e.node.available_resources.gpu_count - total (λ r. r.gpu_count) e.given;
  };
}

abbrev pub open_ledger : List NodeInfo → List Entry
open_ledger nodes = map (λ node. record { node = node; given = [] }) nodes

leb_sub : (r t a : ℕ) → leb t a ≡ true → leb r (a - t) ≡ leb (r + t) a
leb_sub r t a h = ground arith

within_parts :
    (given : List ResourceSpec) (node : NodeInfo)
    → within given node ≡ true
    → (leb (total (λ r. r.cpu_cores) given) node.available_resources.cpu_cores ≡ true)
      × (leb (total (λ r. r.ram_mb) given) node.available_resources.ram_mb ≡ true)
      × (leb (total (λ r. r.gpu_count) given) node.available_resources.gpu_count ≡ true)
within_parts given node h = ground arith

-- The copy has room exactly where the ledger says so.
fits-copy :
    (req : ResourceSpec) (e : Entry)
    → within e.given e.node ≡ true
    → fits req (copy e).available_resources ≡ within (req ∷ e.given) e.node
fits-copy req e h =
    let (cpu, ram, gpu) = within_parts e.given e.node h in
    rw (leb_sub req.cpu_cores _ _ cpu, leb_sub req.ram_mb _ _ ram, leb_sub req.gpu_count _ _ gpu)
      refl

sub_sub : (a t r : ℕ) → a - t - r ≡ a - (r + t)
sub_sub a t r = omega arith

deduct-copy :
    (req : ResourceSpec) (e : Entry)
    → deduct req (copy e) ≡ copy (record e { given = req ∷ e.given })
deduct-copy req e =
    rw
      (
        sub_sub e.node.available_resources.cpu_cores (total (λ r. r.cpu_cores) e.given)
            req.cpu_cores,
        sub_sub e.node.available_resources.ram_mb (total (λ r. r.ram_mb) e.given) req.ram_mb,
        sub_sub e.node.available_resources.gpu_count (total (λ r. r.gpu_count) e.given)
            req.gpu_count,
      )
      refl

-- The copies in place of the ledger.
abbrev copied : Option (Text × List Entry) → Option (Text × List NodeInfo)
copied none = none
copied (some (id, ledger)) = some (id, map copy ledger)

place_on-copies :
    (req : ResourceSpec) (ledger : List Entry)
    → Sound ledger
    → place_on req (map copy ledger) ≡ copied (choose req ledger)
unfolding place_on choose
place_on-copies req [] h = refl
place_on-copies req (e ∷ ledger) (h, hs) = elim (Bool-cases (within (req ∷ e.given) e.node)) [
  | inl room ↦ rw (fits-copy req e h, room) (rw (deduct-copy req e) refl)
  | inr full ↦
      rw (fits-copy req e h, full)
        (ap (behind (copy e)) (place_on-copies req ledger hs) ∙ behind-copied e (choose req ledger))
]
  where
    behind-copied :
        (e : Entry) (o : Option (Text × List Entry))
        → behind (copy e) (copied o) ≡ copied (after_entry e o)
    behind-copied e none = refl
    behind-copied e (some (id, ledger)) = refl

-- A placement keeps the ledger sound and its nodes as they are.
abbrev Keeps : List Entry → List Entry → Type 0
Keeps ledger ledger' = Sound ledger' × (map (λ e. e.node) ledger' ≡ map (λ e. e.node) ledger)

choose-Keeps :
    (req : ResourceSpec) (ledger ledger' : List Entry) (id : Text)
    → Sound ledger
    → choose req ledger ≡ some (id, ledger')
    → Keeps ledger ledger'
unfolding choose
choose-Keeps req [] ledger' id h e = cc
choose-Keeps req (x ∷ ledger) ledger' id (h, hs) e =
    elim (Bool-cases (within (req ∷ x.given) x.node)) [
      | inl room ↦
          let same = ap (λ r. r.1) (some_inj (rw room at e)) in
          subst (Keeps (x ∷ ledger)) same ((room, hs), refl)
      | inr full ↦ elim (Option-cases (choose req ledger)) [
        | inl n ↦ cc (rw n at (rw full at e))
        | inr ((k, rest), r) ↦
            let same = ap (λ r. r.1) (some_inj (rw r at (rw full at e))) in
            let (sound, nodes) = choose-Keeps req ledger rest k hs r in
            subst (Keeps (x ∷ ledger)) same ((h, sound), ap (◌∷◌ x.node) nodes)
      ]
    ]

-- What the loops give on the copies, of what the ledger says.
abbrev Agrees : {S : Type 0} → ℕ → List JobInfo → List Entry → JobManager S → Type 0
Agrees now jobs ledger s =
    let (placements, end) = first_fit jobs ledger in
    (assign_jobs now jobs (map copy ledger) s ≡ (apply_plan now placements s, map copy end))
    × Sound end
    × (map (λ e. e.node) end ≡ map (λ e. e.node) ledger)

assign_jobs-ledger :
    {S : Type 0} (now : ℕ) (jobs : List JobInfo) (ledger : List Entry) (s : JobManager S)
    → Sound ledger
    → Agrees now jobs ledger s
unfolding assign_jobs first_fit apply_plan
assign_jobs-ledger now [] ledger s h = (refl, h, refl)
assign_jobs-ledger now (job ∷ jobs) ledger s h =
    let req = job.spec.resources in
    elim (Option-cases (choose req ledger)) [
      | inl n ↦
          rw (n, assign_jobs, first_fit)
            (rw (place_on-copies req ledger h, n, assign_jobs)
              (assign_jobs-ledger now jobs ledger s h))
      | inr ((id, ledger'), e) ↦
          let (sound, same) = choose-Keeps req ledger ledger' id h e in
          let (placed, end_sound, end_same) =
            assign_jobs-ledger now jobs ledger' (update_job_status now job.job_id assigned id s).0
              sound in
          rw (e, first_fit, apply_plan)
            (rw (place_on-copies req ledger h, e, assign_jobs) (placed, end_sound, end_same ∙ same))
    ]

sub_nothing : (a : ℕ) → a - 0 ≡ a
sub_nothing a = omega arith

copy_new : (node : NodeInfo) → copy (record { node = node; given = [] }) ≡ node
copy_new node =
    rw
      (
        sub_nothing node.available_resources.cpu_cores,
        sub_nothing node.available_resources.ram_mb,
        sub_nothing node.available_resources.gpu_count,
      )
      refl

opened :
    (nodes : List NodeInfo)
    → (map copy (open_ledger nodes) ≡ nodes)
      × Sound (open_ledger nodes)
      × (map (λ e. e.node) (open_ledger nodes) ≡ nodes)
opened [] = (refl, tt, refl)
opened (node ∷ nodes) =
    let (copies, sound, same) = opened nodes in
    (
      ap (λ n. n ∷ map copy (open_ledger nodes)) (copy_new node) ∙ ap (◌∷◌ node) copies,
      (ground arith, sound),
      ap (◌∷◌ node) same,
    )

-- The loops place the jobs first fit. Let a ledger have the nodes as they are at the start, and for each
-- the requests that it was given; a job in turn is given to the first node whose requests, with the
-- job's, stay within what the node has of cores, RAM and GPUs, and is left out where there is none. Then
-- the loops, which deduct from copies of the nodes, leave the job table with these placements made in
-- order, and each copy with what its node has less what it was given; and at the end no node was given
-- more than it has.
pub assign_jobs-first_fit :
    {S : Type 0} (now : ℕ) (jobs : List JobInfo) (nodes : List NodeInfo) (s : JobManager S)
    → let (placements, end) = first_fit jobs (open_ledger nodes) in
      (assign_jobs now jobs nodes s ≡ (apply_plan now placements s, map copy end))
      × Sound end
      × (map (λ e. e.node) end ≡ nodes)
assign_jobs-first_fit now jobs nodes s =
    let (copies, sound, same) = opened nodes in
    let (placed, end_sound, end_same) = assign_jobs-ledger now jobs (open_ledger nodes) s sound in
    (ap (λ ns. assign_jobs now jobs ns s) (sym copies) ∙ placed, end_sound, end_same ∙ same)
