-- ===== src/Master/Resources/Tests.antt =====
-- Concrete runs of the resource manager.
use certos.Base.{◌≡◌, refl, [], ◌∷◌, txt, text_beq, find, assign, Each, arith}
use certos.Messages.{no_resources}
use certos.Master.Samples.{two_cores, four_cores}
use certos.Master.Resources.{
  ResourceManager, NodeCapacity, available, allocate, deallocate, set_node_capacity, get_available,
}
use certos.Master.Resources.Capacity.{IsSound, Reach-IsSound, here, next, allocates, deallocates}
use certos.Master.Resources.Balance.{deallocate-allocate}

abbrev one_node : ResourceManager
one_node = (txt "n", record { total = four_cores; allocated = no_resources }) ∷ []

abbrev busy : NodeCapacity
busy = record { total = four_cores; allocated = two_cores }

abbrev busy_node : ResourceManager
busy_node = (txt "n", busy) ∷ []

code : Unit {0}
unfolding find assign text_beq available allocate deallocate set_node_capacity get_available
code = tt

one_node-IsSound : Each IsSound one_node
unfolding find
one_node-IsSound k cap found = ground arith

busy_node-IsSound : Each IsSound busy_node
unfolding find
busy_node-IsSound k cap found = ground arith

Reach-IsSound_example :
    Each IsSound (deallocate (txt "n") two_cores (allocate (txt "n") two_cores one_node).0)
Reach-IsSound_example =
    Reach-IsSound
      (next (next here (allocates (txt "n") two_cores)) (deallocates (txt "n") two_cores))
      one_node-IsSound

deallocate-allocate_example :
    deallocate (txt "n") two_cores (allocate (txt "n") two_cores busy_node).0 ≡ busy_node
unfolding code
deallocate-allocate_example =
    deallocate-allocate (txt "n") two_cores busy_node busy_node-IsSound refl
