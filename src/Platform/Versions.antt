-- ===== src/Platform/Versions.antt =====
-- What backend/src/platform/migration_runner.cpp uses of the standard library: the order of
-- strings, `std::ranges::sort` and `std::ranges::binary_search` of versions, and file names.
pub mod Order
pub mod Search
use nexustal.Common.{
  ℕ, zero, suc, ◌+◌, ◌-◌, ◌*◌, ◌/◌, ◌%◌, ◌^◌, ◌≤◌, ◌<◌, String, ◌≡◌, refl, sym, ap, ◌∙◌, subst, ◌≢◌,
  ◌↔◌, ◌⊎◌, inl, inr, Bool, true, false, not, ◌&&◌, ◌||◌, Option, none, some, List, [], ◌∷◌, ◌++◌,
  append_assoc, append-nil, arith, ltb, leb, eqb, if◌then◌else◌, Bool-cases, Option-cases, is_some,
  Text, lit, ◌==◌, is_empty, eq_iff, eq_refl, ==-false, length, length-append, find_if, get_elem?,
  modify, take-length, drop-length, take, drop, drop-zero, take-append, drop-append, update_where,
  count_if, count_if-pos, find_if-any, find_if-holds, insert_desc, order_desc, any-insert_desc,
  any-order_desc, All-insert_desc, All-order_desc, find_if-All, any-select, any-false, any_mono,
  any-append, All-append, All-select_self, find_if_unique, any, select, All, All-select, Dict,
  lookup, put, without, lookup-put, lookup-without, Action, ◌>>=◌, ◌>>◌, pure,
}

-- `left < right`, byte by byte.
unfoldable pub less : Text → Text → Bool
less [] [] = false
less [] (y ∷ ys) = true
less (x ∷ xs) [] = false
less (x ∷ xs) (y ∷ ys) = ltb x y || (eqb x y && less xs ys)

module _ {A : Type 0} (key : A → Text) where
  -- `std::ranges::sort` by a key; elements with the same key may come in any order.
  unfoldable pub insert_by_key : A → List A → List A
  insert_by_key x [] = x ∷ []
  insert_by_key x (y ∷ ys) =
      let rest = insert_by_key x ys in if less (key y) (key x) then y ∷ rest else x ∷ y ∷ ys

  unfoldable pub sort_by_key : List A → List A
  unfolding insert_by_key
  sort_by_key [] = []
  sort_by_key (x ∷ xs) = insert_by_key x (sort_by_key xs)

-- The elements from the first one on that is not less than a value, by halving.
unfoldable pub lower_bound : (fuel : ℕ) → Text → List Text → List Text
lower_bound zero value versions = versions
lower_bound (suc fuel) value versions =
    let half = length versions / 2 in
    elim (drop versions half) [
      | [] ↦ versions
      | middle ∷ later ↦
          let after = lower_bound fuel value later in
          let before = lower_bound fuel value (take versions half) in
          if less middle value then after else before ++ middle ∷ later
    ]

abbrev pub is_at_most : List Text → Text → Bool
is_at_most [] value = false
is_at_most (first ∷ _) value = not (less value first)

unfoldable pub binary_search : List Text → Text → Bool
unfolding lower_bound
binary_search versions value = is_at_most (lower_bound (length versions) value versions) value

-- The name up to its last dot, and what stands from there on; nothing without a dot.
unfoldable pub last_dot : Text → Option (Text × Text)
last_dot [] = none
last_dot (c ∷ s) = elim (last_dot s) [
  | some (stem, extension) ↦ some (c ∷ stem, extension)
  | none ↦ if eqb c 46 then some ([], c ∷ s) else none
]

-- `stem()` and `extension()`: a dot at the front belongs to the stem.
abbrev split_at : Text → Option (Text × Text) → Text × Text
split_at name none = (name, [])
split_at name (some ([], extension)) = (name, [])
split_at name (some (c ∷ stem, extension)) = (c ∷ stem, extension)

unfoldable pub stem_and_extension : Text → Text × Text
unfolding last_dot
stem_and_extension name = split_at name (last_dot name)
