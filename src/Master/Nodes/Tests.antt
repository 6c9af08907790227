-- ===== src/Master/Nodes/Tests.antt =====
-- Concrete runs of the node registry.
use certos.Base.{
  ℕ, ◌+◌, ◌%◌, refl, [], ◌∷◌, txt, text_beq, text_beq_iff, find, assign, for_each, arith,
  if◌then◌else◌, nat_beq,
}
use certos.Messages.{NodeInfo}
use certos.Master.Samples.{two_cores, sample_node}
use certos.Master.Nodes.{
  NodeRegistry, find_host, register_node, update_heartbeat, get_node, time_out, check_timeouts,
}
use certos.Master.Nodes.Invariant.{Inv}
use certos.Master.Nodes.Registration.{
  registers, beats, sweeps, unregisters, run_registry, run_registry-Inv,
}

abbrev registry : NodeRegistry
registry = (txt "node-1", sample_node (txt "node-1") (txt "alpha")) ∷ []

code : Unit {0}
unfolding find assign for_each text_beq find_host register_node update_heartbeat get_node time_out
    check_timeouts
code = tt

registry-Inv : Inv registry
unfolding find
registry-Inv = record {
  distinct = (refl, tt);
  named = λ k n found. ground (arith, text_beq_iff (txt "node-1") k);
  hosts = λ j k a b fa fb on.
      ground (arith, text_beq_iff (txt "node-1") j, text_beq_iff (txt "node-1") k);
}

abbrev digits : ℕ → ℕ
digits i = if nat_beq i 19 then 9 else i % 16

abbrev clock : ℕ → ℕ
clock i = 200 + i

abbrev beta : NodeInfo
beta = sample_node [] (txt "beta")

run_registry-Inv_example : Inv (
    run_registry registry (
      registers digits clock beta
      ∷ beats 210 (txt "node-1") two_cores 1
      ∷ sweeps 15 220
      ∷ unregisters (txt "node-1")
      ∷ []))
run_registry-Inv_example = run_registry-Inv registry _ registry-Inv
