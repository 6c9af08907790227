-- ===== src/Master/FairShare.antt =====
-- master/src/scheduler/fair_share.cpp, over any `double`. Each method takes the lock for its whole
-- body. The readings of the clock are arguments.
pub mod Factor
pub mod Decay
mod Tests
use certos.Base.{
  ℕ, Bool, Option, none, some, Text, Dict, find, assign, for_each, if◌then◌else◌, sub_ℕ, [],
}
use certos.Master.Double.{Double}

pub record FairShareManager (D : Type 0) : Type 0 where
  pub half_life_hours : D
  pub last_decay_time : ℕ
  pub user_usage : Dict D

module _ (f : Double) where
  open f use {D, of_int, add, mul, div, pow, log1p, le, lt, zero, one, half, hour, day}

  unfoldable pub new_FairShareManager : D → ℕ → FairShareManager D
  new_FairShareManager half_life_hours now = record {
    half_life_hours = if lt zero half_life_hours then half_life_hours else day;
    last_decay_time = now;
    user_usage = [];
  }

  -- `user_usage_[user_id]` is 0 where there is none.
  abbrev pub usage_or_zero : Option D → D
  usage_or_zero none = zero
  usage_or_zero (some u) = u

  unfoldable pub add_usage : Text → D → FairShareManager D → FairShareManager D
  add_usage user_id cpu_seconds s = record s {
    user_usage =
        assign user_id (add (usage_or_zero (find user_id s.user_usage)) cpu_seconds) s.user_usage;
  }

  abbrev pub hours_elapsed : ℕ → FairShareManager D → D
  hours_elapsed now s = div (of_int (sub_ℕ now s.last_decay_time)) hour

  abbrev pub decay_factor : ℕ → FairShareManager D → D
  decay_factor now s = pow half (div (hours_elapsed now s) s.half_life_hours)

  unfoldable pub apply_decay : ℕ → FairShareManager D → FairShareManager D
  apply_decay now s = if le (hours_elapsed now s) zero then s else record s {
    user_usage = for_each (λ _ usage. mul usage (decay_factor now s)) s.user_usage;
    last_decay_time = now;
  }

  abbrev pub penalty : D → D
  penalty usage = div one (add one (log1p (div usage hour)))

  -- The factor of a user with the usage that was found.
  abbrev pub factor_of : Option D → D
  factor_of none = one
  factor_of (some usage) = if le usage zero then one else penalty usage

  unfoldable pub get_priority_factor : Text → FairShareManager D → D
  get_priority_factor user_id s = factor_of (find user_id s.user_usage)
