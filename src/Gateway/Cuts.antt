-- ===== src/Gateway/Cuts.antt =====
-- Finding the end of an id in a path.
use mathlib.Core.Option
use certos.Gateway.{is_at_start, found_at_start, cut}
use certos.Base.{
  Option, none, zero, ap, ◌+◌, ◌-◌, ltb, take, substr_from, Bool-cases, inl, inr, ℕ, suc, true,
  false, [], ◌∷◌, ◌++◌, some, ◌≡◌, ◌≢◌, refl, ◌∙◌, Text, All, length, starts_with, find_text, arith,
  nat_beq_iff, nat_beq,
}

-- A text without a slash.
abbrev pub NoSlash : Text → Type 0
NoSlash s = All (λ (c : ℕ). c ≢ b'/') s

-- A slash ends what a text without one can match.
starts_with-before_slash :
    (s p t : Text) → NoSlash p → starts_with (s ++ b'/' ∷ t) p ≡ starts_with s p
unfolding starts_with
starts_with-before_slash s [] t h = refl
starts_with-before_slash [] (b ∷ p) t (n, h) = ground arith
starts_with-before_slash (a ∷ s) (b ∷ p) t (n, h) = rw (starts_with-before_slash s p t h) refl

starts_with_refl : (s : Text) → starts_with s s ≡ true
unfolding starts_with
starts_with_refl [] = refl
starts_with_refl (c ∷ s) = ground (arith, starts_with_refl s, nat_beq_iff c c)

differs : (c : ℕ) → c ≢ b'/' → nat_beq c b'/' ≡ false
differs c n = ground arith

find_behind : (id p : Text) → NoSlash id → find_text (id ++ b'/' ∷ p) (b'/' ∷ p) ≡ some (length id)
unfolding find_text
find_behind [] p h = rw (starts_with_refl p) refl
find_behind (c ∷ id) p (n, h) = rw (differs c n, find_behind id p h) refl

-- The first place of a word behind a slash, in a path that ends with it.
pub find_word :
    (id p : Text)
    → NoSlash id
    → NoSlash p
    → starts_with id p ≡ false
    → find_text (b'/' ∷ id ++ b'/' ∷ p) (b'/' ∷ p) ≡ some (suc (length id))
unfolding find_text
find_word id p h k e = rw (starts_with-before_slash id p p k ∙ e, find_behind id p h) refl

not_at_start : (o : Option ℕ) → is_at_start (Option.map suc o) ≡ false
not_at_start none = refl
not_at_start (some n) = refl

-- A text is found at the start exactly where the path starts with it.
pub found_at_start-starts_with : (path p : Text) → found_at_start path p ≡ starts_with path p
unfolding found_at_start find_text
found_at_start-starts_with [] p = elim (Bool-cases (starts_with [] p)) [
  | inl e ↦ rw e refl
  | inr e ↦ rw e refl
]
found_at_start-starts_with (c ∷ s) p = elim (Bool-cases (starts_with (c ∷ s) p)) [
  | inl e ↦ rw e refl
  | inr e ↦ rw e (not_at_start (find_text s p))
]

from_start : (start n : ℕ) → (ltb (start + n) start ≡ false) × (start + n - start ≡ n)
from_start start n = (ground arith, omega arith)

-- `k + n`, which computes on a number that is written out.
abbrev pub past : ℕ → ℕ → ℕ
past zero n = n
past (suc k) n = suc (past k n)

past_sum : (k n : ℕ) → past k n ≡ k + n
past_sum zero n = omega arith
past_sum (suc k) n = let e = past_sum k n in omega arith

-- A cut that ends behind its start.
pub cut-past :
    (start n : ℕ) (s : Text) → cut start (some (past start n)) s ≡ take n (substr_from s start)
unfolding cut
cut-past start n s =
    let (late, count) = from_start start n in
    ap (λ e. cut start (some e) s) (past_sum start n) ∙ rw late (rw count refl)
