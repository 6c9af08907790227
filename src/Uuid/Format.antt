-- ===== src/Uuid/Format.antt =====
-- The form of generated identifiers.
use certos.Base.{
  ℕ, ◌+◌, ◌<◌, ◌≤◌, ◌≡◌, refl, ◌⊎◌, [], ◌∷◌, ◌++◌, Text, length, All, arith, if◌then◌else◌, nat_beq,
  take,
}
use certos.Uuid.{hex_digit, generate_uuid, short_id}

-- A lower-case hexadecimal digit.
abbrev pub IsHex : ℕ → Type 0
IsHex c = ((b'0' ≤ c) × (c ≤ b'9')) ⊎ ((b'a' ≤ c) × (c ≤ b'f'))

-- The generator's contract: a digit everywhere, and 8, 9, 10 or 11 at the variant's position.
pub record Draws (draw : ℕ → ℕ) : Type 0 where
  pub digits : (i : ℕ) → draw i < 16
  pub variant : (8 ≤ draw 19) × (draw 19 ≤ 11)

hex_digit-IsHex : (d : ℕ) → d < 16 → IsHex (hex_digit d)
hex_digit-IsHex d h = ground arith

-- xxxxxxxx-xxxx-4xxx-yxxx-xxxxxxxxxxxx, with y one of 8, 9, a, b.
abbrev pub IsUuidChar : ℕ → ℕ → Type 0
IsUuidChar i c =
    if nat_beq i 8
    then c ≡ b'-'
    else if nat_beq i 13
    then c ≡ b'-'
    else if nat_beq i 18
    then c ≡ b'-'
    else if nat_beq i 23
    then c ≡ b'-'
    else if nat_beq i 14
    then c ≡ b'4'
    else if nat_beq i 19
    then ((b'8' ≤ c) × (c ≤ b'9')) ⊎ ((b'a' ≤ c) × (c ≤ b'b'))
    else IsHex c

abbrev pub IsUuidFrom : ℕ → Text → Type 0
IsUuidFrom i [] = Unit
IsUuidFrom i (c ∷ s) = IsUuidChar i c × IsUuidFrom (i + 1) s

variant_char : (d : ℕ) → 8 ≤ d → d ≤ 11 → IsUuidChar 19 (hex_digit d)
variant_char d h k = ground arith

-- Whatever the generator draws within its contract, the result has the 36 characters of a version 4
-- UUID: hyphens at 8, 13, 18 and 23, the digit 4 at 14, one of 8, 9, a, b at 19, and lower-case
-- hexadecimal digits everywhere else.
pub generate_uuid_format :
    (draw : ℕ → ℕ)
    → Draws draw
    → (length (generate_uuid draw) ≡ 36) × IsUuidFrom 0 (generate_uuid draw)
unfolding generate_uuid
generate_uuid_format draw d =
    let hex = λ (i : ℕ). hex_digit-IsHex (draw i) (d.digits i) in
    (
      refl,
      (
        hex 0,
        (
          hex 1,
          (
            hex 2,
            (
              hex 3,
              (
                hex 4,
                (
                  hex 5,
                  (
                    hex 6,
                    (
                      hex 7,
                      (
                        refl,
                        (
                          hex 9,
                          (
                            hex 10,
                            (
                              hex 11,
                              (
                                hex 12,
                                (
                                  refl,
                                  (
                                    refl,
                                    (
                                      hex 15,
                                      (
                                        hex 16,
                                        (
                                          hex 17,
                                          (
                                            refl,
                                            (
                                              variant_char (draw 19) d.variant.0 d.variant.1,
                                              (
                                                hex 20,
                                                (
                                                  hex 21,
                                                  (
                                                    hex 22,
                                                    (
                                                      refl,
                                                      (
                                                        hex 24,
                                                        (
                                                          hex 25,
                                                          (
                                                            hex 26,
                                                            (
                                                            hex 27,
                                                            (
                                                            hex 28,
                                                            (
                                                            hex 29,
                                                            (
                                                            hex 30,
                                                            (
                                                            hex 31,
                                                            (
                                                            hex 32,
                                                            (hex 33, (hex 34, (hex 35, tt))),
                                                            ),
                                                            ),
                                                            ),
                                                            ),
                                                            ),
                                                            ),
                                                          ),
                                                        ),
                                                      ),
                                                    ),
                                                  ),
                                                ),
                                              ),
                                            ),
                                          ),
                                        ),
                                      ),
                                    ),
                                  ),
                                ),
                              ),
                            ),
                          ),
                        ),
                      ),
                    ),
                  ),
                ),
              ),
            ),
          ),
        ),
      ),
    )

-- An identifier made by `short_id` is its prefix and then exactly eight hexadecimal digits.
pub short_id_format :
    (prefix : Text) (draw : ℕ → ℕ)
    → Draws draw
    → (digits : Text) × (short_id prefix draw ≡ prefix ++ digits)
      × (length digits ≡ 8)
      × All IsHex digits
unfolding short_id
short_id_format prefix draw d =
    let hex = λ (i : ℕ). hex_digit-IsHex (draw i) (d.digits i) in
    (
      take 8 (generate_uuid draw),
      refl,
      refl,
      (hex 0, (hex 1, (hex 2, (hex 3, (hex 4, (hex 5, (hex 6, (hex 7, tt)))))))),
    )
