-- ===== src/Domain/Uuid.antt =====
-- `generate_uuid` of backend/domain/common.hpp. The sixteen draws of the generator are an argument.
pub mod Laws
use Prim.Native.Nat.{bit_and, bit_or}
use nexustal.Common.{
  ℕ, zero, suc, ◌+◌, ◌-◌, ◌*◌, ◌/◌, ◌%◌, ◌^◌, ◌≤◌, ◌<◌, String, ◌≡◌, refl, sym, ap, ◌∙◌, subst, ◌≢◌,
  ◌↔◌, ◌⊎◌, inl, inr, Bool, true, false, not, ◌&&◌, ◌||◌, Option, none, some, List, [], ◌∷◌, ◌++◌,
  append_assoc, append-nil, arith, ltb, leb, eqb, if◌then◌else◌, Bool-cases, Option-cases, is_some,
  Text, lit, ◌==◌, is_empty, eq_iff, eq_refl, ==-false, length, length-append, find_if, get_elem?,
  modify, any, select, All, All-select, Dict, lookup, put, without, lookup-put, lookup-without,
}

abbrev hex_digit : ℕ → ℕ
hex_digit d = if ltb d 10 then 48 + d else 87 + d

-- `setw(2) << hex << byte`, filled with zeros.
abbrev hex_byte : ℕ → Text
hex_byte byte = hex_digit (byte / 16) ∷ hex_digit (byte % 16) ∷ []

abbrev is_break : ℕ → Bool
is_break index = eqb index 3 || eqb index 5 || eqb index 7 || eqb index 9

-- The loop, from an index on.
write_bytes : ℕ → List ℕ → Text
write_bytes index [] = []
write_bytes index (byte ∷ bytes) =
    hex_byte byte ++ ((if is_break index then b'-' ∷ [] else []) ++ write_bytes (suc index) bytes)

set_version : ℕ → ℕ
set_version byte = bit_or (bit_and byte 0x0f) 0x40

set_variant : ℕ → ℕ
set_variant byte = bit_or (bit_and byte 0x3f) 0x80

unfoldable pub generate_uuid : List ℕ → Text
unfolding write_bytes set_version set_variant
generate_uuid draws = write_bytes 0 (modify 8 set_variant (modify 6 set_version draws))
