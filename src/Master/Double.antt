-- ===== src/Master/Double.antt =====
-- `double` and the functions of <cmath> that the scheduler calls, as a parameter of the model.
use certos.Base.{Bool, true, false, ℤ, ◌≡◌}

-- The operations that the program uses, and its literals.
pub record Double : Type 1 where
  pub D : Type 0
  pub of_int : ℤ → D
  pub add : D → D → D
  pub sub : D → D → D
  pub mul : D → D → D
  pub div : D → D → D
  pub abs : D → D
  pub pow : D → D → D
  pub log1p : D → D
  -- a <= b and a < b
  pub le : D → D → Bool
  pub lt : D → D → Bool
  pub zero : D  -- 0
  pub one : D  -- 1.0
  pub half : D  -- 0.5
  pub tenth : D  -- 0.1
  pub hour : D  -- 3600.0
  pub day : D  -- 24.0

module _ (f : Double) where
  open f use {D, add, mul, div, pow, log1p, le, lt, zero, one, half, hour}

  -- What the fair-share computation relies on: rounded arithmetic keeps order and sign, where what comes
  -- out is finite. `IsFinite` says that a value is neither infinite nor a NaN. No comparison with a NaN
  -- holds.
  pub record IsOrdered : Type 1 where
    pub IsFinite : D → Type 0
    pub le_refl : (a : D) → IsFinite a → le a a ≡ true
    pub le_trans : (a b c : D) → le a b ≡ true → le b c ≡ true → le a c ≡ true
    pub le_total : (a b : D) → IsFinite a → IsFinite b → le a b ≡ false → le b a ≡ true
    pub one_finite : IsFinite one
    pub zero_finite : IsFinite zero
    pub zero-le-one : le zero one ≡ true
    pub div_hour_mono : (a b : D) → le a b ≡ true → le (div a hour) (div b hour) ≡ true
    pub div_hour_nonneg : (a : D) → le zero a ≡ true → le zero (div a hour) ≡ true
    pub log1p_nonneg : (a : D) → le zero a ≡ true → le zero (log1p a) ≡ true
    pub one-le-add : (a : D) → le zero a ≡ true → le one (add one a) ≡ true
    pub add_mono : (a b : D) → le a b ≡ true → le (add one a) (add one b) ≡ true
    pub reciprocal_anti :
        (a b : D) → le one a ≡ true → le a b ≡ true → le (div one b) (div one a) ≡ true
    pub reciprocal_nonneg : (a : D) → le one a ≡ true → le zero (div one a) ≡ true
    pub reciprocal_one : div one one ≡ one
    pub pow_half_nonneg : (a : D) → le zero a ≡ true → le zero (pow half a) ≡ true
    pub mul_finite :
        (a b : D) → IsFinite a → le zero b ≡ true → le b one ≡ true → IsFinite (mul a b)
    pub le_add : (a b : D) → IsFinite (add a b) → le zero b ≡ true → le a (add a b) ≡ true
    pub pow_half_le : (a : D) → le zero a ≡ true → le (pow half a) one ≡ true
    pub div_nonneg :
        (a b : D) → IsFinite a → le zero a ≡ true → lt zero b ≡ true → le zero (div a b) ≡ true
    pub mul_le :
        (a b : D) → IsFinite (mul a b) → le zero a ≡ true → le b one ≡ true → le (mul a b) a ≡ true

  -- That `log1p` keeps order, which the standard does not promise.
  abbrev pub Log1pMono : Type 0
  Log1pMono = (a b : D) → le zero a ≡ true → le a b ≡ true → le (log1p a) (log1p b) ≡ true
