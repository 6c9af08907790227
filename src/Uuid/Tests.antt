-- ===== src/Uuid/Tests.antt =====
-- A concrete identifier.
use certos.Base.{ℕ, ◌%◌, ◌≡◌, refl, txt, arith, if◌then◌else◌, nat_beq}
use certos.Uuid.{generate_uuid}
use certos.Uuid.Format.{Draws}

abbrev counting : ℕ → ℕ
counting i = if nat_beq i 19 then 9 else i % 16

counting-Draws : Draws counting
counting-Draws = record { digits = λ i. ground arith; variant = omega arith }

counted : generate_uuid counting ≡ txt "01234567-9abc-4f01-9456-89abcdef0123"
unfolding generate_uuid
counted = refl
