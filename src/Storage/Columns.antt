-- ===== src/Storage/Columns.antt =====
-- Columns of bounded texts.
use nexustal.Common.{
  ℕ, zero, suc, ◌+◌, ◌≤◌, ◌≡◌, refl, subst, inl, inr, Bool, true, ◌&&◌, Option, none, some, [], ◌∷◌,
  arith, ltb, leb, eqb, if◌then◌else◌, Bool-cases, Text,
}

-- `varchar(n)` counts characters. A longer text is refused, unless what is too much are spaces:
-- they are cut off.
abbrev pub is_continuation : ℕ → Bool
is_continuation b = leb 128 b && ltb b 192

abbrev all_spaces : Text → Bool
all_spaces [] = true
all_spaces (b ∷ more) = eqb b 32 && all_spaces more

unfoldable pub characters : Text → ℕ
characters [] = 0
characters (b ∷ more) = (if is_continuation b then 0 else 1) + characters more

abbrev with_byte : ℕ → Option Text → Option Text
with_byte b none = none
with_byte b (some text) = some (b ∷ text)

unfoldable pub varchar : ℕ → Text → Option Text
varchar n [] = some []
varchar zero (b ∷ more) =
    let tail = varchar 0 more in
    if is_continuation b then with_byte b tail else if all_spaces (b ∷ more) then some [] else none
varchar (suc n) (b ∷ more) =
    let tail = varchar (suc n) more in
    let fewer = varchar n more in if is_continuation b then with_byte b tail else with_byte b fewer

abbrev Within : ℕ → Option Text → Type 0
Within n none = Unit
Within n (some stored) = characters stored ≤ n

with_byte-Within :
    (b m n : ℕ) (o : Option Text)
    → Within m o
    → (if is_continuation b then 0 else 1) + m ≤ n
    → Within n (with_byte b o)
unfolding characters
with_byte-Within b m n none h k = tt
with_byte-Within b m n (some text) h k = omega (arith, h, k)

varchar-Within : (n : ℕ) (given : Text) → Within n (varchar n given)
unfolding varchar characters
varchar-Within n [] = omega arith
varchar-Within zero (b ∷ more) = elim (Bool-cases (is_continuation b)) [
  | inl inside ↦
      rw inside
        (with_byte-Within b 0 0 (varchar 0 more) (varchar-Within 0 more) (rw inside (omega arith)))
  | inr start ↦ elim (Bool-cases (all_spaces (b ∷ more))) [
    | inl spaces ↦ rw (start, spaces) (omega arith)
    | inr letters ↦ rw (start, letters) tt
  ]
]
varchar-Within (suc n) (b ∷ more) = elim (Bool-cases (is_continuation b)) [
  | inl inside ↦ rw inside (
      with_byte-Within b (suc n) (suc n) (varchar (suc n) more) (varchar-Within (suc n) more)
        (rw inside (omega arith)))
  | inr start ↦ rw start (
      with_byte-Within b n (suc n) (varchar n more) (varchar-Within n more)
        (rw start (omega arith)))
]

-- A column of type `varchar(n)` holds at most `n` characters.
pub varchar-characters :
    (n : ℕ) (given stored : Text) → varchar n given ≡ some stored → characters stored ≤ n
varchar-characters n given stored h = subst (Within n) h (varchar-Within n given)

-- A text that is short enough is stored as it is.
pub varchar-short : (n : ℕ) (given : Text) → characters given ≤ n → varchar n given ≡ some given
unfolding varchar characters
varchar-short n [] h = refl
varchar-short zero (b ∷ more) h = ground (arith, varchar-short 0 more)
varchar-short (suc n) (b ∷ more) h =
    ground (arith, varchar-short n more, varchar-short (suc n) more)
