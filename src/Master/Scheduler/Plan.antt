-- ===== src/Master/Scheduler/Plan.antt =====
-- A pass as a plan, made before any job is touched: which job goes to which node.
use certos.Base.{
  ℕ, true, false, List, [], ◌∷◌, none, some, ◌≡◌, refl, sym, ap, ◌∙◌, ◌⊎◌, inl, inr, Text, arith,
  All, some_inj, Option-cases, Bool-cases,
}
use certos.Messages.{NodeInfo, JobInfo, ResourceSpec, assigned}
use certos.Master.Jobs.{JobManager, update_job_status}
use certos.Master.Resources.{fits}
use certos.Master.Scheduler.{deduct, place_on, assign_jobs}

-- First fit: each job in turn goes to the first node with room.
unfoldable pub plan : List JobInfo → List NodeInfo → List (JobInfo × Text)
plan [] nodes = []
plan (job ∷ jobs) nodes = elim (place_on job.spec.resources nodes) [
  | none ↦ plan jobs nodes
  | some (id, nodes') ↦ (job, id) ∷ plan jobs nodes'
]

-- The jobs that find no room.
unfoldable pub unplaced : List JobInfo → List NodeInfo → List JobInfo
unplaced [] nodes = []
unplaced (job ∷ jobs) nodes = elim (place_on job.spec.resources nodes) [
  | none ↦ job ∷ unplaced jobs nodes
  | some (id, nodes') ↦ unplaced jobs nodes'
]

unfoldable pub left_over : List JobInfo → List NodeInfo → List NodeInfo
left_over [] nodes = nodes
left_over (job ∷ jobs) nodes = elim (place_on job.spec.resources nodes) [
  | none ↦ left_over jobs nodes
  | some (id, nodes') ↦ left_over jobs nodes'
]

unfoldable pub apply_plan : {S : Type 0} → ℕ → List (JobInfo × Text) → JobManager S → JobManager S
apply_plan now [] s = s
apply_plan now ((job, id) ∷ p) s =
    apply_plan now p (update_job_status now job.job_id assigned id s).0

-- The loop that mixes the choice of nodes with the updates of jobs does what the plan says, and ends
-- with the nodes that the plan leaves.
pub assign_jobs-plan :
    {S : Type 0} (now : ℕ) (jobs : List JobInfo) (nodes : List NodeInfo) (s : JobManager S)
    → assign_jobs now jobs nodes s ≡ (apply_plan now (plan jobs nodes) s, left_over jobs nodes)
unfolding assign_jobs plan apply_plan left_over
assign_jobs-plan now [] nodes s = refl
assign_jobs-plan now (job ∷ jobs) nodes s =
    elim (Option-cases (place_on job.spec.resources nodes)) [
      | inl e ↦ rw (e, assign_jobs, plan, left_over) (assign_jobs-plan now jobs nodes s)
      | inr ((id, nodes'), e) ↦
          rw (e, assign_jobs, plan, left_over)
            (assign_jobs-plan now jobs nodes' (update_job_status now job.job_id assigned id s).0)
    ]

abbrev pub NoRoom : ResourceSpec → List NodeInfo → Type 0
NoRoom req nodes = All (λ node. fits req node.available_resources ≡ false) nodes

place_on-NoRoom :
    (req : ResourceSpec) (nodes : List NodeInfo) → place_on req nodes ≡ none → NoRoom req nodes
unfolding place_on
place_on-NoRoom req [] h = tt
place_on-NoRoom req (node ∷ nodes) h = ground (arith, place_on-NoRoom req nodes)

deduct_no_room :
    (req other : ResourceSpec) (node : NodeInfo)
    → fits other node.available_resources ≡ false
    → fits other (deduct req node).available_resources ≡ false
deduct_no_room req other node h = ground arith

-- Where the inner loop stopped.
pub place_on_cases :
    (req : ResourceSpec) (node : NodeInfo) (nodes nodes' : List NodeInfo) (id : Text)
    → place_on req (node ∷ nodes) ≡ some (id, nodes')
    → ((fits req node.available_resources ≡ true)
        × (node.node_id ≡ id)
        × (nodes' ≡ deduct req node ∷ nodes))
      ⊎ ((rest : List NodeInfo) × (place_on req nodes ≡ some (id, rest)) × (nodes' ≡ node ∷ rest))
unfolding place_on
place_on_cases req node nodes nodes' id e = elim (Bool-cases (fits req node.available_resources)) [
  | inl h ↦
      let found = some_inj (rw (h, place_on) at e) in
      inl (h, ap (λ p. p.0) found, sym (ap (λ p. p.1) found))
  | inr h ↦ elim (Option-cases (place_on req nodes)) [
    | inl n ↦ cc (rw n at (rw (h, place_on) at e))
    | inr ((k, rest), r) ↦
        let found = some_inj (rw r at (rw (h, place_on) at e)) in
        inr (rest, r ∙ ap (λ i. some (i, rest)) (ap (λ p. p.0) found), sym (ap (λ p. p.1) found))
  ]
]

-- Room only shrinks.
place_on_keeps_NoRoom :
    (req other : ResourceSpec) (nodes nodes' : List NodeInfo) (id : Text)
    → place_on req nodes ≡ some (id, nodes')
    → NoRoom other nodes
    → NoRoom other nodes'
unfolding place_on
place_on_keeps_NoRoom req other [] nodes' id e h = cc
place_on_keeps_NoRoom req other (node ∷ nodes) nodes' id e (h, hs) =
    elim (place_on_cases req node nodes nodes' id e) [
      | inl (_, _, same) ↦ rw same (deduct_no_room req other node h, hs)
      | inr (rest, r, same) ↦ rw same (h, place_on_keeps_NoRoom req other nodes rest id r hs)
    ]

left_over_keeps_NoRoom :
    (other : ResourceSpec) (jobs : List JobInfo) (nodes : List NodeInfo)
    → NoRoom other nodes
    → NoRoom other (left_over jobs nodes)
unfolding left_over
left_over_keeps_NoRoom other [] nodes h = h
left_over_keeps_NoRoom other (job ∷ jobs) nodes h =
    elim (Option-cases (place_on job.spec.resources nodes)) [
      | inl e ↦ rw (e, left_over) (left_over_keeps_NoRoom other jobs nodes h)
      | inr ((id, nodes'), e) ↦
          rw (e, left_over)
            (left_over_keeps_NoRoom other jobs nodes'
              (place_on_keeps_NoRoom job.spec.resources other nodes nodes' id e h))
    ]

-- No job is left waiting while a node has room for it: after the pass, none of the jobs that were not
-- placed fits into what is left of any node.
pub unplaced-NoRoom :
    (jobs : List JobInfo) (nodes : List NodeInfo)
    → All (λ job. NoRoom job.spec.resources (left_over jobs nodes)) (unplaced jobs nodes)
unfolding unplaced left_over
unplaced-NoRoom [] nodes = tt
unplaced-NoRoom (job ∷ jobs) nodes = elim (Option-cases (place_on job.spec.resources nodes)) [
  | inl e ↦
      rw (e, unplaced, left_over)
        (
          left_over_keeps_NoRoom job.spec.resources jobs nodes
              (place_on-NoRoom job.spec.resources nodes e),
          unplaced-NoRoom jobs nodes,
        )
  | inr ((id, nodes'), e) ↦ rw (e, unplaced, left_over) (unplaced-NoRoom jobs nodes')
]
