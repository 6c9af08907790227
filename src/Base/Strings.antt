-- ===== src/Base/Strings.antt =====
-- `std::string` as the list of its bytes, with the operations of it that the program calls.
use Prim.Native.Nat.{ℕ, zero, suc, ◌+◌, ◌/◌, ◌%◌}
use Prim.Native.Char.{code}
use Prim.Native.String.{String}
use mathlib.Core.Path.{◌≡◌, refl}
use mathlib.Core.Logic.{◌↔◌}
use mathlib.Core.Bool.{Bool, true, false, ◌&&◌}
use mathlib.Core.List.{List, [], ◌∷◌, ◌++◌}
use mathlib.Core.Option
use mathlib.Core.Option.{Option, none, some}
use native.Mathlib.Omega.{arith}
use certos.Base.Tests.{nat_beq, nat_beq_iff, HasEqual, if◌then◌else◌, ltb}
use certos.Base.Lists.{take, drop}

abbrev pub Text : Type 0
Text = List ℕ

-- The bytes of a literal, which is ASCII.
abbrev pub txt : String → Text
txt String.[] = []
txt (String.◌∷◌ c s) = code c ∷ txt s

unfoldable pub text_beq : Text → Text → Bool
text_beq [] [] = true
text_beq [] (b ∷ t) = false
text_beq (a ∷ s) [] = false
text_beq (a ∷ s) (b ∷ t) = nat_beq a b && text_beq s t

pub text_beq_iff : (s t : Text) → (text_beq s t ≡ true) ↔ (s ≡ t)
unfolding text_beq
text_beq_iff [] [] = ground arith
text_beq_iff [] (b ∷ t) = ground arith
text_beq_iff (a ∷ s) [] = ground arith
text_beq_iff (a ∷ s) (b ∷ t) = ground (arith, text_beq_iff s t, nat_beq_iff a b)

instance abbrev pub text_eq : HasEqual Text
text_eq = record { equals = text_beq; equals_decides = text_beq_iff }

pub text_beq_refl : (s : Text) → text_beq s s ≡ true
text_beq_refl s = (text_beq_iff s s).1 refl

-- `s` begins with `p`.
unfoldable pub starts_with : Text → Text → Bool
starts_with s [] = true
starts_with [] (b ∷ p) = false
starts_with (a ∷ s) (b ∷ p) = nat_beq a b && starts_with s p

-- `s.find(p)`: where the first occurrence of `p` begins; `none` is `npos`.
unfoldable pub find_text : Text → Text → Option ℕ
unfolding starts_with
find_text [] p = if starts_with [] p then some 0 else none
find_text (a ∷ s) p =
    let rest = Option.map suc (find_text s p) in if starts_with (a ∷ s) p then some 0 else rest

abbrev pub is_some {ℓ} : {A : Type ℓ} → Option A → Bool
is_some none = false
is_some (some a) = true

-- `s.substr(start)` and `s.substr(start, count)`, at a start within the text.
abbrev pub substr_from : Text → ℕ → Text
substr_from s start = drop start s

abbrev pub substr : Text → ℕ → ℕ → Text
substr s start count = take count (drop start s)

-- `std::to_string` of a number with at most 20 digits, as every 64-bit number has.
unfoldable pub decimal_onto : ℕ → ℕ → Text → Text
decimal_onto zero n tail = tail
decimal_onto (suc fuel) n tail =
    let longer = decimal_onto fuel (n / 10) ((b'0' + n % 10) ∷ tail) in
    if ltb n 10 then (b'0' + n) ∷ tail else longer

abbrev pub to_string : ℕ → Text
to_string n = decimal_onto 20 n []

pub starts_with-append : (p s : Text) → starts_with (p ++ s) p ≡ true
unfolding starts_with
starts_with-append [] s = refl
starts_with-append (b ∷ p) s = ground (arith, starts_with-append p s, nat_beq_iff b b)
