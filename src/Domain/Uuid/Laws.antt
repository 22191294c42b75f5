-- ===== src/Domain/Uuid/Laws.antt =====
-- The shape of a generated identifier.
use nexustal.Common.{
  ◌+◌, if◌then◌else◌, ℕ, zero, suc, ◌/◌, ◌≤◌, ◌≡◌, Bool, ◌&&◌, some, leb, eqb, Text, length,
  get_elem?,
}
use nexustal.Domain.Uuid.{set_version, set_variant, hex_digit}

-- How many numbers below a bound fail a test.
failures : (ℕ → Bool) → ℕ → ℕ
failures test zero = 0
failures test (suc bound) = (if test bound then 0 else 1) + failures test bound

abbrev has_version : ℕ → Bool
has_version byte = eqb (set_version byte / 16) 4

abbrev has_variant : ℕ → Bool
has_variant byte = leb 8 (set_variant byte / 16) && leb (set_variant byte / 16) 11

-- The text of a random identifier: 36 characters, dashes at 8, 13, 18 and 23, the digit 4 at 14
-- and one of 8, 9, a and b at 19.
pub record IsUuid (t : Text) : Type 0 where
  pub size : length t ≡ 36
  pub dashes :
      (get_elem? t 8 ≡ some b'-')
      × (get_elem? t 13 ≡ some b'-')
      × (get_elem? t 18 ≡ some b'-')
      × (get_elem? t 23 ≡ some b'-')
  pub version : get_elem? t 14 ≡ some b'4'
  pub variant : (d : ℕ) × (get_elem? t 19 ≡ some (hex_digit d)) × (8 ≤ d) × (d ≤ 11)
