-- ===== src/Master/FairShare/Factor.antt =====
-- The range and the order of priority factors.
use certos.Base.{
  true, false, Option, none, some, ◌≡◌, refl, sym, ap, ◌∙◌, inl, inr, Text, find, find-assign,
  text_beq_refl, assign, if◌then◌else◌, Bool-cases, Each, subst, some_inj,
}
use mathlib.Core.Bool.{false≢true}
use certos.Master.Double.{Double, IsOrdered, Log1pMono}
use certos.Master.FairShare.{
  FairShareManager, add_usage, usage_or_zero, penalty, factor_of, get_priority_factor,
}

module _ (f : Double) (laws : IsOrdered f) where
  open f use {D, add, div, log1p, le, zero, one, hour}
  open laws use {
    IsFinite, le_refl, le_trans, le_total, one_finite, zero_finite, zero-le-one, div_hour_mono,
    div_hour_nonneg, log1p_nonneg, one-le-add, add_mono, reciprocal_anti, reciprocal_nonneg,
    reciprocal_one, le_add,
  }

  positive : (u : D) → IsFinite u → le u zero ≡ false → le zero u ≡ true
  positive u n h = le_total u zero n zero_finite h

  denominator : (u : D) → le zero u ≡ true → le one (add one (log1p (div u hour))) ≡ true
  denominator u h = one-le-add _ (log1p_nonneg _ (div_hour_nonneg u h))

  penalty_le : (u : D) → le zero u ≡ true → le (penalty f u) one ≡ true
  penalty_le u h =
      subst (λ x. le (penalty f u) x ≡ true) reciprocal_one
        (reciprocal_anti one _ (le_refl one one_finite) (denominator u h))

  penalty_anti :
      Log1pMono f
      → (a b : D) → le zero a ≡ true
      → le a b ≡ true
      → le (penalty f b) (penalty f a) ≡ true
  penalty_anti log1p_mono a b h k =
      reciprocal_anti _ _ (denominator a h)
        (add_mono _ _ (log1p_mono _ _ (div_hour_nonneg a h) (div_hour_mono a b k)))

  -- A usage that is finite gives a factor from 0 to 1.
  pub factor_bounds :
      (o : Option D)
      → ((u : D) → o ≡ some u → IsFinite u)
      → (le zero (factor_of f o) ≡ true) × (le (factor_of f o) one ≡ true)
  factor_bounds none n = (zero-le-one, le_refl one one_finite)
  factor_bounds (some u) n = elim (Bool-cases (le u zero)) [
    | inl h ↦ rw h (zero-le-one, le_refl one one_finite)
    | inr h ↦
        let p = positive u (n u refl) h in
        rw h (reciprocal_nonneg _ (denominator u p), penalty_le u p)
  ]

  -- Where the arithmetic of `double` keeps order and sign and every recorded usage is finite, every
  -- user's priority factor lies between 0 and 1.
  pub get_priority_factor_bounds :
      (user : Text) (s : FairShareManager D)
      → Each (λ _ u. IsFinite u) s.user_usage
      → (le zero (get_priority_factor f user s) ≡ true)
        × (le (get_priority_factor f user s) one ≡ true)
  unfolding get_priority_factor
  get_priority_factor_bounds user s n = factor_bounds (find user s.user_usage) (λ u e. n user u e)

  -- More usage never gives a higher factor, where `log1p` keeps order.
  pub factor_anti :
      Log1pMono f
      → (a b : D) → IsFinite a
      → IsFinite b
      → le a b ≡ true
      → le (factor_of f (some b)) (factor_of f (some a)) ≡ true
  factor_anti mono a b na nb h = elim (Bool-cases (le a zero)) [
    | inl ea ↦ rw ea (factor_bounds (some b) (λ u e. subst IsFinite (some_inj e) nb)).1
    | inr ea ↦
        let pa = positive a na ea in
        elim (Bool-cases (le b zero)) [
          | inl eb ↦ absurd (false≢true (sym ea ∙ le_trans a b zero h eb))
          | inr eb ↦ rw (ea, eb) (penalty_anti mono a b pa h)
        ]
  ]

  -- Where `double` is ordered so, `log1p` keeps order, and recorded usages are finite before and after, recording a usage
  -- that is not negative never raises the user's factor.
  pub get_priority_factor-add_usage :
      Log1pMono f
      → (user : Text) (seconds : D) (s : FairShareManager D) → Each (λ _ u. IsFinite u) s.user_usage
      → Each (λ _ u. IsFinite u) (add_usage f user seconds s).user_usage
      → le zero seconds ≡ true
      → le (get_priority_factor f user (add_usage f user seconds s)) (get_priority_factor f user s)
        ≡ true
  unfolding get_priority_factor add_usage
  get_priority_factor-add_usage mono user seconds s n n' h =
      let old = find user s.user_usage in
      let new = add (usage_or_zero f old) seconds in
      let there : find user (assign user new s.user_usage) ≡ some new =
        find-assign user user new s.user_usage
        ∙ ap (λ b. if b then some new else find user s.user_usage) (text_beq_refl user) in
      rw there (
        compare_old old (λ u e. n user u e) (n' user new there)
          (le_add _ seconds (n' user new there) h))
    where
      compare_old :
          (o : Option D)
          → ((u : D) → o ≡ some u → IsFinite u)
          → IsFinite (add (usage_or_zero f o) seconds)
          → le (usage_or_zero f o) (add (usage_or_zero f o) seconds) ≡ true
          → le (factor_of f (some (add (usage_or_zero f o) seconds))) (factor_of f o) ≡ true
      compare_old none k m l = (factor_bounds (some _) (λ u e. subst IsFinite (some_inj e) m)).1
      compare_old (some u) k m l = factor_anti mono u _ (k u refl) m l
