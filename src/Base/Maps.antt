-- ===== src/Base/Maps.antt =====
-- `std::unordered_map` with texts for keys, as an association list. A map is iterated over in the
-- order of the list; nothing that is proved depends on which order that is.

use mathlib.Core.Path.{◌≡◌, refl}
use mathlib.Core.List.{List, [], ◌∷◌, Memᴰ}
use mathlib.Core.Logic.{inl, inr}
use mathlib.Core.Option
use mathlib.Core.Option.{Option, none, some}
use mathlib.Core.Bool.{Bool, true, false}
use native.Mathlib.Omega.{arith}
use certos.Base.Lists.{keep}
use certos.Base.Tests.{if◌then◌else◌, Bool-cases}
use certos.Base.Strings.{Text, text_beq, text_beq_iff, text_eq}

abbrev pub Dict {ℓ} : Type ℓ → Type ℓ
Dict V = List (Text × V)

module _ {ℓ} {V : Type ℓ} where
  -- `m.find(k)`
  unfoldable pub find : Text → Dict V → Option V
  find k [] = none
  find k ((j, v) ∷ m) = if text_beq j k then some v else find k m

  -- `m[k] = v`
  unfoldable pub assign : Text → V → Dict V → Dict V
  assign k v [] = (k, v) ∷ []
  assign k v ((j, w) ∷ m) = if text_beq j k then (j, v) ∷ m else (j, w) ∷ assign k v m

  -- `m.erase(k)`
  unfoldable pub erase : Text → Dict V → Dict V
  erase k [] = []
  erase k ((j, v) ∷ m) = if text_beq j k then erase k m else (j, v) ∷ erase k m

  -- `for (auto& pair : m) { ... }`, a loop that changes each value in place.
  unfoldable pub for_each : (Text → V → V) → Dict V → Dict V
  for_each f [] = []
  for_each f ((k, v) ∷ m) = (k, f k v) ∷ for_each f m

  abbrev pub values : Dict V → List V
  values [] = []
  values ((k, v) ∷ m) = v ∷ values m

  pub find-assign :
      (k j : Text) (v : V) (m : Dict V)
      → find j (assign k v m) ≡ (if text_beq k j then some v else find j m)
  unfolding find assign
  find-assign k j v [] = refl
  find-assign k j v ((i, w) ∷ m) =
      ground (arith, text_beq_iff k j, text_beq_iff i k, text_beq_iff i j, find-assign k j v m)

  pub find-erase :
      (k j : Text) (m : Dict V) → find j (erase k m) ≡ (if text_beq k j then none else find j m)
  unfolding find erase
  find-erase k j [] = ground arith
  find-erase k j ((i, w) ∷ m) =
      ground (arith, text_beq_iff k j, text_beq_iff i k, text_beq_iff i j, find-erase k j m)

  pub find-for_each :
      (f : Text → V → V) (k : Text) (m : Dict V)
      → find k (for_each f m) ≡ Option.map (f k) (find k m)
  unfolding find for_each
  find-for_each f k [] = refl
  find-for_each f k ((i, w) ∷ m) = ground (arith, text_beq_iff i k, find-for_each f k m)

  -- No key stands twice: what a map guarantees.
  abbrev pub DistinctKeys : Dict V → Type ℓ
  DistinctKeys [] = Unit
  DistinctKeys ((k, v) ∷ m) = (find k m ≡ none) × DistinctKeys m

  pub assign-DistinctKeys :
      (k : Text) (v : V) (m : Dict V) → DistinctKeys m → DistinctKeys (assign k v m)
  unfolding find assign
  assign-DistinctKeys k v [] d = (refl, tt)
  assign-DistinctKeys k v ((i, w) ∷ m) (fresh, d) = elim (Bool-cases (text_beq i k)) [
    | inl e ↦ rw e (fresh, d)
    | inr e ↦ rw e (
      rw (find-assign k i v m) (ground (arith, text_beq_iff i k, text_beq_iff k i)),
      assign-DistinctKeys k v m d,
    )
  ]

  pub erase-DistinctKeys : (k : Text) (m : Dict V) → DistinctKeys m → DistinctKeys (erase k m)
  unfolding find erase
  erase-DistinctKeys k [] d = tt
  erase-DistinctKeys k ((i, w) ∷ m) (fresh, d) = elim (Bool-cases (text_beq i k)) [
    | inl e ↦ rw e (erase-DistinctKeys k m d)
    | inr e ↦ rw e (rw (find-erase k i m) (ground arith), erase-DistinctKeys k m d)
  ]

  pub for_each-DistinctKeys :
      (f : Text → V → V) (m : Dict V) → DistinctKeys m → DistinctKeys (for_each f m)
  unfolding find for_each
  for_each-DistinctKeys f [] d = tt
  for_each-DistinctKeys f ((i, w) ∷ m) (fresh, d) =
      (rw (find-for_each f i m, fresh), for_each-DistinctKeys f m d)

  -- The loop over the values meets what `find` finds, and nothing else.
  pub mem-values_of_find : (k : Text) {v : V} (m : Dict V) → find k m ≡ some v → Memᴰ v (values m)
  unfolding find
  mem-values_of_find k [] h = cc
  mem-values_of_find k ((i, w) ∷ m) h = elim (Bool-cases (text_beq i k)) [
    | inl e ↦ Memᴰ.head (ground arith)
    | inr e ↦ Memᴰ.tail (mem-values_of_find k m (ground arith))
  ]

  pub find_of_mem-values :
      {v : V} (m : Dict V) → DistinctKeys m → Memᴰ v (values m) → (k : Text) × (find k m ≡ some v)
  unfolding find
  find_of_mem-values [] d i = elim i [ ]
  find_of_mem-values ((i, w) ∷ m) d (Memᴰ.head e) = (i, ground (arith, text_beq_iff i i))
  find_of_mem-values ((i, w) ∷ m) (fresh, d) (Memᴰ.tail at) =
      let (k, h) = find_of_mem-values m d at in (k, ground (arith, text_beq_iff i k))

  -- A second write to a key replaces the first.
  pub assign-assign : (k : Text) (v w : V) (m : Dict V) → assign k v (assign k w m) ≡ assign k v m
  unfolding assign
  assign-assign k v w [] = ground (arith, text_beq_iff k k)
  assign-assign k v w ((i, u) ∷ m) = ground (arith, text_beq_iff i k, assign-assign k v w m)

  -- Writing what is there changes nothing.
  pub assign_same : (k : Text) (v : V) (m : Dict V) → find k m ≡ some v → assign k v m ≡ m
  unfolding find assign
  assign_same k v [] h = cc
  assign_same k v ((i, u) ∷ m) h = ground (arith, text_beq_iff i k, assign_same k v m)

module _ {ℓ} {V : Type ℓ} (p : V → Bool) where
  -- A write to a map of which no value passes a filter.
  pub keep-assign :
      (k : Text) (v : V) (m : Dict V)
      → p v ≡ true
      → keep p (values m) ≡ []
      → keep p (values (assign k v m)) ≡ v ∷ []
  unfolding assign
  keep-assign k v [] pv h = rw pv refl
  keep-assign k v ((j, w) ∷ m) pv h = elim (Bool-cases (p w)) [
    | inl e ↦ cc (rw e at h)
    | inr e ↦
        let h' = rw e at h in
        elim (Bool-cases (text_beq j k)) [
          | inl same ↦ rw same (rw pv (rw h' refl))
          | inr other ↦ rw other (rw e (keep-assign k v m pv h'))
        ]
  ]

  pub keep-assign_not :
      (k : Text) (v : V) (m : Dict V)
      → p v ≡ false
      → keep p (values m) ≡ []
      → keep p (values (assign k v m)) ≡ []
  unfolding assign
  keep-assign_not k v [] pv h = rw pv refl
  keep-assign_not k v ((j, w) ∷ m) pv h = elim (Bool-cases (p w)) [
    | inl e ↦ cc (rw e at h)
    | inr e ↦
        let h' = rw e at h in
        elim (Bool-cases (text_beq j k)) [
          | inl same ↦ rw same (rw pv h')
          | inr other ↦ rw other (rw e (keep-assign_not k v m pv h'))
        ]
  ]
