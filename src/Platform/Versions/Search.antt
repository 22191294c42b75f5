-- ===== src/Platform/Versions/Search.antt =====
-- The binary search finds what is there, in a list that is ordered by bytes.
use nexustal.Platform.Versions.Order.{less-below, less_self, less-between, Ordered, Sorted}
use nexustal.Platform.Versions.{less, lower_bound, is_at_most, binary_search}
use nexustal.Common.{
  ℕ, zero, suc, ◌/◌, ◌≤◌, ◌≡◌, refl, sym, ap, ◌∙◌, subst, ◌≢◌, ◌⊎◌, inl, inr, true, false, List, [],
  ◌∷◌, ◌++◌, arith, if◌then◌else◌, Bool-cases, Text, ◌==◌, eq_iff, ==-false, length, length-append,
  take, drop, any, All,
}

-- The elements from the first one on that is not less, one by one.
unfoldable pub skip_less : Text → List Text → List Text
skip_less value [] = []
skip_less value (x ∷ xs) = let rest = skip_less value xs in if less x value then rest else x ∷ xs

All-parts : (P : Text → Type 0) (xs ys : List Text) → All P (xs ++ ys) → All P xs × All P ys
All-parts P [] ys h = (tt, h)
All-parts P (x ∷ xs) ys (first, rest) =
    let (here, there) = All-parts P xs ys rest in ((first, here), there)

Sorted-append :
    (xs ys : List Text)
    → Sorted (xs ++ ys)
    → Sorted xs × Sorted ys × All (λ x. All (λ y. less y x ≡ false) ys) xs
unfolding Ordered
Sorted-append [] ys h = (tt, h, tt)
Sorted-append (x ∷ xs) ys (first, rest) =
    let (left, right, across) = Sorted-append xs ys rest in
    let (here, there) = All-parts (λ y. less y x ≡ false) xs ys first in
    ((here, left), right, (there, across))

skip_less-append :
    (value middle : Text) (xs later : List Text)
    → less middle value ≡ false
    → skip_less value (xs ++ middle ∷ later) ≡ skip_less value xs ++ middle ∷ later
unfolding skip_less
skip_less-append value middle [] later h = ground arith
skip_less-append value middle (x ∷ xs) later h =
    ground (arith, skip_less-append value middle xs later h)

skip_less-past :
    (value : Text) (xs ys : List Text)
    → All (λ x. less x value ≡ true) xs
    → skip_less value (xs ++ ys) ≡ skip_less value ys
unfolding skip_less
skip_less-past value [] ys h = refl
skip_less-past value (x ∷ xs) ys (first, rest) =
    ground (arith, first, skip_less-past value xs ys rest)

take-drop : (xs : List Text) (n : ℕ) → take xs n ++ drop xs n ≡ xs
take-drop [] n = refl
take-drop (x ∷ xs) zero = refl
take-drop (x ∷ xs) (suc n) = ap (λ l. x ∷ l) (take-drop xs n)

length-drop_empty : (xs : List Text) (n : ℕ) → drop xs n ≡ [] → length xs ≤ n
length-drop_empty [] n h = omega arith
length-drop_empty (x ∷ xs) zero h = ground (arith, h)
length-drop_empty (x ∷ xs) (suc n) h = omega (arith, length-drop_empty xs n h)

drop_half : (xs : List Text) → drop xs (length xs / 2) ≡ [] → xs ≡ []
drop_half [] h = refl
drop_half (x ∷ xs) h =
    let short = length-drop_empty (x ∷ xs) (length (x ∷ xs) / 2) h in absurd (omega (arith, short))

List-cases : (xs : List Text) → (xs ≡ []) ⊎ ((x : Text) × (ys : List Text) × (xs ≡ x ∷ ys))
List-cases [] = inl refl
List-cases (x ∷ xs) = inr (x, xs, refl)

All-below :
    (middle value : Text) (xs later : List Text)
    → less middle value ≡ true
    → All (λ x. All (λ y. less y x ≡ false) (middle ∷ later)) xs
    → All (λ x. less x value ≡ true) xs
All-below middle value [] later h k = tt
All-below middle value (x ∷ xs) later h ((first, _), rest) =
    (less-below x middle value first h, All-below middle value xs later h rest)

Sorted-rest : (x : Text) (xs : List Text) → Sorted (x ∷ xs) → Sorted xs
unfolding Ordered
Sorted-rest x xs (first, rest) = rest

skip_less-first :
    (value x : Text) (xs : List Text)
    → less x value ≡ true
    → skip_less value (x ∷ xs) ≡ skip_less value xs
unfolding skip_less
skip_less-first value x xs h = ground (arith, h)

lower_bound-skip_less :
    (fuel : ℕ) (value : Text) (xs : List Text)
    → length xs ≤ fuel
    → Sorted xs
    → lower_bound fuel value xs ≡ skip_less value xs
unfolding lower_bound skip_less
lower_bound-skip_less zero value [] h s = refl
lower_bound-skip_less zero value (x ∷ xs) h s = absurd (omega (arith, h))
lower_bound-skip_less (suc fuel) value xs h s =
    let before = take xs (length xs / 2) in
    elim (List-cases (drop xs (length xs / 2))) [
      | inl none_left ↦
          subst (λ l. lower_bound (suc fuel) value l ≡ skip_less value l)
            (sym (drop_half xs none_left)) refl
      | inr (middle, later, split) ↦
          let whole : before ++ middle ∷ later ≡ xs =
            ap (λ l. before ++ l) (sym split) ∙ take-drop xs (length xs / 2) in
          let lengths = ap length (sym whole) ∙ length-append before (middle ∷ later) in
          let (left, right, across) =
            Sorted-append before (middle ∷ later) (subst Sorted (sym whole) s) in
          let in_later =
            lower_bound-skip_less fuel value later (omega (arith, lengths, h))
              (Sorted-rest middle later right) in
          let in_before =
            lower_bound-skip_less fuel value before (omega (arith, lengths, h)) left in
          subst (λ l. lower_bound (suc fuel) value xs ≡ skip_less value l) whole
            (elim (Bool-cases (less middle value)) [
              | inl below ↦
                  rw (lower_bound, split, below)
                    (in_later
                      ∙ sym (
                          skip_less-past value before (middle ∷ later)
                            (All-below middle value before later below across)
                          ∙ skip_less-first value middle later below))
              | inr not_below ↦
                  rw (lower_bound, split, not_below)
                    (ap (λ l. l ++ middle ∷ later) in_before
                      ∙ sym (skip_less-append value middle before later not_below))
            ])
    ]

==-less : (x y value : Text) → less y x ≢ less value x → (y == value) ≡ false
==-less x y value h = ==-false y value (λ e. h (ap (λ z. less z x) e))

any-above :
    (x value : Text) (xs : List Text)
    → less value x ≡ true
    → All (λ y. less y x ≡ false) xs
    → any (λ y. y == value) xs ≡ false
any-above x value [] h k = refl
any-above x value (y ∷ ys) h (first, rest) =
    ground
      (arith, ==-less x y value (λ e. ground (arith, e, h, first)), any-above x value ys h rest)

-- Where a value stands, or would stand.
is_at_most-skip_less :
    (value : Text) (xs : List Text)
    → Sorted xs
    → is_at_most (skip_less value xs) value ≡ any (λ x. x == value) xs
unfolding skip_less Ordered
is_at_most-skip_less value [] s = refl
is_at_most-skip_less value (x ∷ xs) (first, rest) = elim (Bool-cases (less x value)) [
  | inl below ↦
      let other = ==-less value x value (λ e. ground (arith, e, below, less_self value)) in
      rw (below, other) (is_at_most-skip_less value xs rest)
  | inr not_below ↦ elim (Bool-cases (less value x)) [
    | inl above ↦
        let other = ==-less x x value (λ e. ground (arith, e, above, less_self x)) in
        rw (not_below, above, other, any-above x value xs above first) refl
    | inr not_above ↦
        let here : (x == value) ≡ true =
          (eq_iff x value).1 (less-between x value not_below not_above) in
        rw (not_below, not_above, here) refl
  ]
]

-- The binary search in a list that is ordered by bytes gives whether the value is in the list.
pub binary_search-any :
    (versions : List Text) (value : Text)
    → Sorted versions
    → binary_search versions value ≡ any (λ x. x == value) versions
unfolding binary_search
binary_search-any versions value s =
    ap (λ l. is_at_most l value)
      (lower_bound-skip_less (length versions) value versions (omega arith) s)
    ∙ is_at_most-skip_less value versions s
