-- ===== src/Uuid.antt =====
-- lib/common/src/uuid.cpp. The random numbers are a parameter: `draw i` is what the distribution
-- yields at position `i`, from 0 to 15, or from 8 to 11 at the variant's position.
pub mod Format
mod Tests
use certos.Base.{
  ℕ, zero, suc, ◌+◌, Bool, ◌||◌, List, [], ◌∷◌, Text, txt, if◌then◌else◌, nat_beq, ltb, ◌-◌, take,
  ◌++◌,
}

-- `hex[d]`, for a digit below 16.
abbrev pub hex_digit : ℕ → ℕ
hex_digit d = if ltb d 10 then b'0' + d else b'a' + (d - 10)

abbrev pub is_hyphen_position : ℕ → Bool
is_hyphen_position i = nat_beq i 8 || nat_beq i 13 || nat_beq i 18 || nat_beq i 23

-- One round of the loop.
abbrev pub uuid_char : (ℕ → ℕ) → ℕ → ℕ
uuid_char draw i =
    if is_hyphen_position i then b'-' else if nat_beq i 14 then b'4' else hex_digit (draw i)

-- The loop over positions `i`, …, `i + n - 1`.
unfoldable pub uuid_from : (ℕ → ℕ) → ℕ → ℕ → Text
uuid_from draw i zero = []
uuid_from draw i (suc n) = uuid_char draw i ∷ uuid_from draw (i + 1) n

unfoldable pub generate_uuid : (ℕ → ℕ) → Text
unfolding uuid_from
generate_uuid draw = uuid_from draw 0 36

-- `prefix + generate_uuid().substr(0, 8)`
unfoldable pub short_id : Text → (ℕ → ℕ) → Text
unfolding generate_uuid
short_id prefix draw = prefix ++ take 8 (generate_uuid draw)
