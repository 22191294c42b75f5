-- ===== src/Platform/Versions/Order.antt =====
-- The order of strings, and sorting by it.
use nexustal.Platform.Versions.{less, insert_by_key, sort_by_key}
use nexustal.Common.{
  count_if, ◌≡◌, refl, inl, inr, Bool, true, false, ◌||◌, List, [], ◌∷◌, arith, Bool-cases, Text,
  any, All,
}

pub less-below :
    (x middle value : Text) → less middle x ≡ false → less middle value ≡ true → less x value ≡ true
unfolding less
less-below [] [] [] h k = ground arith
less-below [] [] (v ∷ vs) h k = refl
less-below [] (m ∷ ms) [] h k = ground arith
less-below [] (m ∷ ms) (v ∷ vs) h k = refl
less-below (x ∷ xs) [] value h k = ground arith
less-below (x ∷ xs) (m ∷ ms) [] h k = ground arith
less-below (x ∷ xs) (m ∷ ms) (v ∷ vs) h k = ground (arith, less-below xs ms vs)

pub less_asym : (x y : Text) → less x y ≡ true → less y x ≡ false
unfolding less
less_asym [] [] h = refl
less_asym [] (y ∷ ys) h = refl
less_asym (x ∷ xs) [] h = ground arith
less_asym (x ∷ xs) (y ∷ ys) h = ground (arith, less_asym xs ys)

-- Not being less goes through a value in between.
pub less_trans_false : (x y z : Text) → less y x ≡ false → less x z ≡ false → less y z ≡ false
less_trans_false x y z h k = ground (arith, less-below x y z)

pub less_self : (x : Text) → less x x ≡ false
unfolding less
less_self [] = refl
less_self (x ∷ xs) = ground (arith, less_self xs)

pub less-between : (x y : Text) → less x y ≡ false → less y x ≡ false → x ≡ y
unfolding less
less-between [] [] h k = refl
less-between [] (y ∷ ys) h k = ground arith
less-between (x ∷ xs) [] h k = ground arith
less-between (x ∷ xs) (y ∷ ys) h k = ground (arith, less-between xs ys)

module _ {A : Type 0} (key : A → Text) where
  -- No later element has a smaller key.
  unfoldable pub Ordered : List A → Type 0
  Ordered [] = Unit {0}
  Ordered (x ∷ xs) = All (λ y. less (key y) (key x) ≡ false) xs × Ordered xs

  insert_by_key-All :
      (P : A → Type 0) (x : A) (xs : List A) → P x → All P xs → All P (insert_by_key key x xs)
  unfolding insert_by_key
  insert_by_key-All P x [] p h = (p, tt)
  insert_by_key-All P x (y ∷ ys) p (first, rest) = elim (Bool-cases (less (key y) (key x))) [
    | inl after ↦ rw after (first, insert_by_key-All P x ys p rest)
    | inr before ↦ rw before (p, (first, rest))
  ]

  All-not_less :
      (x y : A) (ys : List A)
      → less (key y) (key x) ≡ false
      → All (λ z. less (key z) (key y) ≡ false) ys
      → All (λ z. less (key z) (key x) ≡ false) ys
  All-not_less x y [] h k = tt
  All-not_less x y (z ∷ zs) h (first, rest) =
      (less_trans_false (key y) (key z) (key x) first h, All-not_less x y zs h rest)

  insert_by_key-Ordered : (x : A) (xs : List A) → Ordered xs → Ordered (insert_by_key key x xs)
  unfolding insert_by_key Ordered
  insert_by_key-Ordered x [] h = (tt, tt)
  insert_by_key-Ordered x (y ∷ ys) (first, rest) = elim (Bool-cases (less (key y) (key x))) [
    | inl after ↦ rw after (
      insert_by_key-All (λ z. less (key z) (key y) ≡ false) x ys (less_asym (key y) (key x) after)
          first,
      insert_by_key-Ordered x ys rest,
    )
    | inr before ↦ rw before ((before, All-not_less x y ys before first), (first, rest))
  ]

  pub sort_by_key-Ordered : (xs : List A) → Ordered (sort_by_key key xs)
  unfolding sort_by_key Ordered
  sort_by_key-Ordered [] = tt
  sort_by_key-Ordered (x ∷ xs) =
      insert_by_key-Ordered x (sort_by_key key xs) (sort_by_key-Ordered xs)

  pub sort_by_key-All : (P : A → Type 0) (xs : List A) → All P xs → All P (sort_by_key key xs)
  unfolding sort_by_key
  sort_by_key-All P [] h = tt
  sort_by_key-All P (x ∷ xs) (first, rest) =
      insert_by_key-All P x (sort_by_key key xs) first (sort_by_key-All P xs rest)

  count_if-insert_by_key :
      (p : A → Bool) (x : A) (xs : List A)
      → count_if p (insert_by_key key x xs) ≡ count_if p (x ∷ xs)
  unfolding insert_by_key
  count_if-insert_by_key p x [] = refl
  count_if-insert_by_key p x (y ∷ ys) = elim (Bool-cases (less (key y) (key x))) [
    | inl after ↦ rw after (ground (arith, count_if-insert_by_key p x ys))
    | inr before ↦ rw before refl
  ]

  pub count_if-sort_by_key :
      (p : A → Bool) (xs : List A) → count_if p (sort_by_key key xs) ≡ count_if p xs
  unfolding sort_by_key
  count_if-sort_by_key p [] = refl
  count_if-sort_by_key p (x ∷ xs) =
      ground (arith, count_if-insert_by_key p x (sort_by_key key xs), count_if-sort_by_key p xs)

  any-insert_by_key :
      (p : A → Bool) (x : A) (xs : List A) → any p (insert_by_key key x xs) ≡ (p x || any p xs)
  unfolding insert_by_key
  any-insert_by_key p x [] = ground arith
  any-insert_by_key p x (y ∷ ys) = ground (arith, any-insert_by_key p x ys)

  pub any-sort_by_key : (p : A → Bool) (xs : List A) → any p (sort_by_key key xs) ≡ any p xs
  unfolding sort_by_key
  any-sort_by_key p [] = refl
  any-sort_by_key p (x ∷ xs) =
      ground (arith, any-insert_by_key p x (sort_by_key key xs), any-sort_by_key p xs)

abbrev pub Sorted : List Text → Type 0
Sorted versions = Ordered (λ v. v) versions
