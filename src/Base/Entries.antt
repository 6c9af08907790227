-- ===== src/Base/Entries.antt =====
-- What holds of every entry of a map, and how the map's operations keep it.
use mathlib.Core.Path.{◌≡◌, subst}
use mathlib.Core.Logic.{inl, inr}
use mathlib.Core.Option.{some}
use certos.Base.Tests.{Bool-cases, Option-cases, some_inj}
use certos.Base.Strings.{Text, text_beq, text_beq_iff}
use mathlib.Core.List.{[], ◌∷◌}
use certos.Base.Lists.{All}
use certos.Base.Maps.{Dict, find, assign, erase, for_each, find-assign, find-erase, find-for_each}

abbrev pub Each {ℓ κ} : {V : Type ℓ} → (Text → V → Type κ) → Dict V → Type (ℓ ⊔ κ)
Each {V} P m = (k : Text) (v : V) → find k m ≡ some v → P k v

module _ {ℓ κ} {V : Type ℓ} (P : Text → V → Type κ) where
  pub assign-Each : (k : Text) (v : V) (m : Dict V) → Each P m → P k v → Each P (assign k v m)
  assign-Each k v m h p j w found = elim (Bool-cases (text_beq k j)) [
    | inl e ↦
        let at = rw (find-assign k j v m, e) at found in
        subst (λ i. P i w) ((text_beq_iff k j).0 e) (subst (P k) (some_inj at) p)
    | inr e ↦ h j w (rw (find-assign k j v m, e) at found)
  ]

  pub erase-Each : (k : Text) (m : Dict V) → Each P m → Each P (erase k m)
  erase-Each k m h j w found = elim (Bool-cases (text_beq k j)) [
    | inl e ↦ cc (rw (find-erase k j m, e) at found)
    | inr e ↦ h j w (rw (find-erase k j m, e) at found)
  ]

  pub for_each-Each :
      (f : Text → V → V) (m : Dict V)
      → ((k : Text) (v : V) → find k m ≡ some v → P k v → P k (f k v))
      → Each P m
      → Each P (for_each f m)
  for_each-Each f m keep h j w found = elim (Option-cases (find j m)) [
    | inl e ↦ cc (rw (find-for_each f j m, e) at found)
    | inr (v, e) ↦
        subst (P j) (some_inj (rw (find-for_each f j m, e) at found)) (keep j v e (h j v e))
  ]

  pub Each-of_All : (m : Dict V) → All (λ (e : Text × V). P e.0 e.1) m → Each P m
  unfolding find
  Each-of_All [] h j w found = cc
  Each-of_All ((k, v) ∷ m) (p, ps) j w found = elim (Bool-cases (text_beq k j)) [
    | inl e ↦ subst (λ i. P i w) ((text_beq_iff k j).0 e) (subst (P k) (some_inj (rw e at found)) p)
    | inr e ↦ Each-of_All m ps j w (rw e at found)
  ]
