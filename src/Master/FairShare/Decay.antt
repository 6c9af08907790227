-- ===== src/Master/FairShare/Decay.antt =====
-- What the passing of time does to usage and priority.
use mathlib.Core.Option
use certos.Base.{
  ℕ, true, false, some, ◌≡◌, ap, ◌∙◌, ◌⊎◌, inl, inr, Text, find, find-for_each, Bool-cases,
  for_each,
}
use certos.Master.Double.{Double, IsOrdered, Log1pMono}
use certos.Master.FairShare.{
  FairShareManager, hours_elapsed, decay_factor, apply_decay, get_priority_factor,
}
use certos.Master.FairShare.Factor.{factor_anti}

module _ (f : Double) (laws : IsOrdered f) where
  open f use {D, mul, div, pow, le, lt, zero, one, half, hour}
  open laws use {
    IsFinite, zero_finite, le_total, div_nonneg, pow_half_nonneg, pow_half_le, mul_finite, mul_le,
  }

  -- A pass that finds no time gone by changes nothing. Otherwise the time of the decay is set to
  -- now, and a user's usage becomes no larger and the priority factor no smaller. This is where
  -- `double` is ordered and `log1p` keeps order, of a usage that is finite and not negative, a positive half-life, and
  -- hours that are finite.
  pub apply_decay_raises :
      Log1pMono f
      → (now : ℕ) (user : Text) (u : D) (s : FairShareManager D) → IsFinite u
      → le zero u ≡ true
      → IsFinite (hours_elapsed f now s)
      → lt zero s.half_life_hours ≡ true
      → find user s.user_usage ≡ some u
      → ((le (hours_elapsed f now s) zero ≡ true) × (apply_decay f now s ≡ s))
        ⊎ ((le (hours_elapsed f now s) zero ≡ false)
            × ((apply_decay f now s).last_decay_time ≡ now)
            × (u' : D) × (find user (apply_decay f now s).user_usage ≡ some u')
            × (le u' u ≡ true)
            × (le (get_priority_factor f user s) (get_priority_factor f user (apply_decay f now s))
                ≡ true))
  unfolding apply_decay get_priority_factor
  apply_decay_raises mono now user u s nu pu nh life found =
      elim (Bool-cases (le (hours_elapsed f now s) zero)) [
        | inl e ↦ inl (e, rw (e, apply_decay))
        | inr e ↦
            let p = le_total _ zero nh zero_finite e in
            let q = div_nonneg _ _ nh p life in
            let d = decay_factor f now s in
            let there : find user (for_each (λ _ w. mul w d) s.user_usage) ≡ some (mul u d) =
              find-for_each (λ _ w. mul w d) user s.user_usage
              ∙ ap (Option.map (λ w. mul w d)) found in
            let n = mul_finite u d nu (pow_half_nonneg _ q) (pow_half_le _ q) in
            let less = mul_le u d n pu (pow_half_le _ q) in
            inr (
              e,
              rw (e, apply_decay),
              mul u d,
              rw (e, apply_decay) there,
              less,
              rw (e, apply_decay, get_priority_factor)
                  (rw (there, found) (factor_anti f laws mono (mul u d) u n nu less)),
            )
      ]
