-- ===== src/Master/FairShare/Tests.antt =====
-- Concrete runs of the fair-share accounts, over whole numbers.
use certos.Base.{◌≡◌, true, [], ◌∷◌, txt, Each, leb}
use certos.Master.Samples.{whole_numbers, whole_numbers_ordered}
use certos.Master.FairShare.{FairShareManager, get_priority_factor}
use certos.Master.FairShare.Factor.{get_priority_factor_bounds}

abbrev accounts : FairShareManager whole_numbers.D
accounts = record {
  half_life_hours = 24;
  last_decay_time = 1000;
  user_usage = (txt "ann", 7200) ∷ [];
}

all_numbers :
    (s : FairShareManager whole_numbers.D)
    → Each (λ _ u. whole_numbers_ordered.IsFinite u) s.user_usage
unfolding whole_numbers_ordered
all_numbers s user u found = tt

get_priority_factor_bounds_example :
    (leb 0 (get_priority_factor whole_numbers (txt "ann") accounts) ≡ true)
    × (leb (get_priority_factor whole_numbers (txt "ann") accounts) 1 ≡ true)
get_priority_factor_bounds_example =
    get_priority_factor_bounds whole_numbers whole_numbers_ordered (txt "ann") accounts
      (all_numbers accounts)
