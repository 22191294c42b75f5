-- ===== src/Storage/Timestamps.antt =====
-- backend/infrastructure/adapters/timestamp_codec.hpp. A time is a number of seconds since the
-- epoch, none of them before it; the calendar of the C library is a parameter.
use nexustal.Domain.Identity.{Timestamp}
use nexustal.Common.{
  ℕ, ◌≡◌, sym, ap, ◌∙◌, Bool, true, ◌||◌, Option, none, some, [], ◌∷◌, ◌++◌, arith, eqb,
  if◌then◌else◌, Text,
}

-- Broken-down times `Tm`.
pub record Calendar (Tm : Type 0) : Type 0 where
  -- `get_time` with "%Y-%m-%d %H:%M:%S", nothing where it fails
  pub get_time : Text → Option Tm
  -- `mktime`, which takes its argument for a local time, and `gmtime`
  pub mktime : Tm → Timestamp
  pub gmtime : Timestamp → Tm
  -- `put_time` with "%Y-%m-%dT%H:%M:%SZ"
  pub put_time : Tm → Text

-- `.`, `+` or `Z`
abbrev pub is_zone_mark : ℕ → Bool
is_zone_mark c = eqb c 46 || eqb c 43 || eqb c 90

-- What stands before the first such character.
unfoldable pub cut_zone : Text → Text
cut_zone [] = []
cut_zone (c ∷ s) = let rest = cut_zone s in if is_zone_mark c then [] else c ∷ rest

cut_zone-append :
    (digits zone : Text) (mark : ℕ)
    → is_zone_mark mark ≡ true
    → cut_zone (digits ++ mark ∷ zone) ≡ cut_zone digits
unfolding cut_zone
cut_zone-append [] zone mark h = ground (arith, h)
cut_zone-append (c ∷ digits) zone mark h = ground (arith, cut_zone-append digits zone mark h)

module _ {Tm : Type 0} (calendar : Calendar Tm) where
  abbrev time_of : Option Tm → Timestamp
  time_of none = 0
  time_of (some tm) = calendar.mktime tm

  unfoldable pub parse_timestamp : Text → Timestamp
  unfolding cut_zone
  parse_timestamp value = time_of (calendar.get_time (cut_zone value))

  unfoldable pub format_timestamp : Timestamp → Text
  format_timestamp value = calendar.put_time (calendar.gmtime value)

  -- The zone of a time is not read: whatever stands behind the date and the time, from a dot, a
  -- plus sign or a `Z` on, they are read as the same moment.
  pub parse_timestamp-zone :
      (digits zone other : Text) (mark sign : ℕ)
      → is_zone_mark mark ≡ true
      → is_zone_mark sign ≡ true
      → parse_timestamp (digits ++ mark ∷ zone) ≡ parse_timestamp (digits ++ sign ∷ other)
  unfolding parse_timestamp
  parse_timestamp-zone digits zone other mark sign h k =
      ap (λ t. time_of (calendar.get_time t))
        (cut_zone-append digits zone mark h ∙ sym (cut_zone-append digits other sign k))
