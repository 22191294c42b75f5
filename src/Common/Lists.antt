-- ===== src/Common/Lists.antt =====
-- List operations over the native numbers, and predicates on lists.

use nexustal.Common.Basics.{
  inr, subst, inl, Bool-cases, zero, refl, ap, leb, [], suc, ◌||◌, if◌then◌else◌, some, arith, ◌+◌,
  true, ◌&&◌, ◌∙◌, none, ◌∷◌, ◌++◌, ltb, Option, ◌≡◌, false, is_some, ℕ, Bool, List,
}

module _ {ℓ} {A : Type ℓ} where
  abbrev pub length : List A → ℕ
  length [] = 0
  length (x ∷ xs) = suc (length xs)

  pub length-append : (xs ys : List A) → length (xs ++ ys) ≡ length xs + length ys
  length-append [] ys = omega arith
  length-append (x ∷ xs) ys = omega (arith, length-append xs ys)

  abbrev pub get_elem? : List A → ℕ → Option A
  get_elem? [] i = none
  get_elem? (x ∷ xs) zero = some x
  get_elem? (x ∷ xs) (suc i) = get_elem? xs i

  -- A write through a function at one index.
  abbrev pub modify : ℕ → (A → A) → List A → List A
  modify i f [] = []
  modify zero f (x ∷ xs) = f x ∷ xs
  modify (suc i) f (x ∷ xs) = x ∷ modify i f xs

  abbrev pub take : List A → ℕ → List A
  take [] n = []
  take (x ∷ xs) zero = []
  take (x ∷ xs) (suc n) = x ∷ take xs n

  abbrev pub drop : List A → ℕ → List A
  drop [] n = []
  drop (x ∷ xs) zero = x ∷ xs
  drop (x ∷ xs) (suc n) = drop xs n

  pub drop-zero : (xs : List A) → drop xs 0 ≡ xs
  drop-zero [] = refl
  drop-zero (x ∷ xs) = refl

  pub take-append : (xs ys : List A) (n : ℕ) → take (xs ++ ys) (length xs + n) ≡ xs ++ take ys n
  take-append [] ys n = ap (take ys) (omega arith)
  take-append (x ∷ xs) ys n =
      ap (take (x ∷ xs ++ ys))
        (let e : length (x ∷ xs) + n ≡ suc (length xs + n) = omega arith in e)
      ∙ ap (λ l. x ∷ l) (take-append xs ys n)

  pub drop-append : (xs ys : List A) (n : ℕ) → drop (xs ++ ys) (length xs + n) ≡ drop ys n
  drop-append [] ys n = ap (drop ys) (omega arith)
  drop-append (x ∷ xs) ys n =
      ap (drop (x ∷ xs ++ ys))
        (let e : length (x ∷ xs) + n ≡ suc (length xs + n) = omega arith in e)
      ∙ drop-append xs ys n

  pub take-length : (xs ys : List A) → take (xs ++ ys) (length xs) ≡ xs
  take-length [] [] = refl
  take-length [] (y ∷ ys) = refl
  take-length (x ∷ xs) ys = ap (λ l. x ∷ l) (take-length xs ys)

  pub drop-length : (xs ys : List A) → drop (xs ++ ys) (length xs) ≡ ys
  drop-length [] ys = drop-zero ys
  drop-length (x ∷ xs) ys = drop-length xs ys

  -- `std::find_if`
  abbrev pub find_if : (A → Bool) → List A → Option A
  find_if p [] = none
  find_if p (x ∷ xs) = if p x then some x else find_if p xs

  abbrev pub any : (A → Bool) → List A → Bool
  any p [] = false
  any p (x ∷ xs) = p x || any p xs

  -- the rows that a condition selects
  abbrev pub select : (A → Bool) → List A → List A
  select p [] = []
  select p (x ∷ xs) = let rest = select p xs in if p x then x ∷ rest else rest

module _ {ℓ} {A : Type ℓ} where
  -- The rows after `UPDATE … WHERE`, and how many it affects.
  abbrev pub update_where : (A → Bool) → (A → A) → List A → List A
  update_where p f [] = []
  update_where p f (x ∷ xs) = (if p x then f x else x) ∷ update_where p f xs

  abbrev pub count_if : (A → Bool) → List A → ℕ
  count_if p [] = 0
  count_if p (x ∷ xs) = (if p x then 1 else 0) + count_if p xs

  pub count_if-pos : (p : A → Bool) (xs : List A) → ltb 0 (count_if p xs) ≡ any p xs
  count_if-pos p [] = ground arith
  count_if-pos p (x ∷ xs) = ground (arith, count_if-pos p xs)

  pub find_if-any : (p : A → Bool) (xs : List A) → is_some (find_if p xs) ≡ any p xs
  find_if-any p [] = refl
  find_if-any p (x ∷ xs) = ground (arith, find_if-any p xs)

  pub find_if-holds : (p : A → Bool) (xs : List A) (y : A) → find_if p xs ≡ some y → p y ≡ true
  find_if-holds p [] y h = cc
  find_if-holds p (x ∷ xs) y h = ground (arith, find_if-holds p xs y)

  -- Rows ordered by a falling key, ties in the order of the table.
  abbrev pub insert_desc : (A → ℕ) → A → List A → List A
  insert_desc key x [] = x ∷ []
  insert_desc key x (y ∷ ys) =
      let rest = insert_desc key x ys in if leb (key y) (key x) then x ∷ y ∷ ys else y ∷ rest

  abbrev pub order_desc : (A → ℕ) → List A → List A
  order_desc key [] = []
  order_desc key (x ∷ xs) = insert_desc key x (order_desc key xs)

  pub any-select : (p q : A → Bool) (xs : List A) → any q (select p xs) ≡ any (λ x. p x && q x) xs
  any-select p q [] = refl
  any-select p q (x ∷ xs) = ground (arith, any-select p q xs)

  pub any_mono :
      (p q : A → Bool) (xs : List A)
      → ((x : A) → p x ≡ true → q x ≡ true)
      → any p xs ≡ true
      → any q xs ≡ true
  any_mono p q [] h e = e
  any_mono p q (x ∷ xs) h e = ground (arith, h x, any_mono p q xs h)

  pub any-false : (p : A → Bool) (xs : List A) → any p xs ≡ false → find_if p xs ≡ none
  any-false p [] h = refl
  any-false p (x ∷ xs) h = ground (arith, any-false p xs)

  pub any-append : (p : A → Bool) (xs ys : List A) → any p (xs ++ ys) ≡ (any p xs || any p ys)
  any-append p [] ys = refl
  any-append p (x ∷ xs) ys = ground (arith, any-append p xs ys)

  pub any-insert_desc :
      (p : A → Bool) (key : A → ℕ) (x : A) (xs : List A)
      → any p (insert_desc key x xs) ≡ (p x || any p xs)
  any-insert_desc p key x [] = refl
  any-insert_desc p key x (y ∷ ys) = ground (arith, any-insert_desc p key x ys)

  pub any-order_desc :
      (p : A → Bool) (key : A → ℕ) (xs : List A) → any p (order_desc key xs) ≡ any p xs
  any-order_desc p key [] = refl
  any-order_desc p key (x ∷ xs) =
      any-insert_desc p key x (order_desc key xs) ∙ ap (λ b. p x || b) (any-order_desc p key xs)

module _ {ℓ κ} {A : Type ℓ} (P : A → Type κ) where
  abbrev pub All : List A → Type κ
  All [] = Unit
  All (x ∷ xs) = P x × All xs

  pub All-select : (p : A → Bool) (xs : List A) → All xs → All (select p xs)
  All-select p [] h = tt
  All-select p (x ∷ xs) h = ground (arith, All-select p xs h.1)

  pub All-append : (xs ys : List A) → All xs → All ys → All (xs ++ ys)
  All-append [] ys h k = k
  All-append (x ∷ xs) ys h k = (h.0, All-append xs ys h.1 k)

  pub All-insert_desc :
      (key : A → ℕ) (x : A) (xs : List A) → P x → All xs → All (insert_desc key x xs)
  All-insert_desc key x [] px h = (px, tt)
  All-insert_desc key x (y ∷ ys) px h = ground (arith, All-insert_desc key x ys px h.1)

  pub All-order_desc : (key : A → ℕ) (xs : List A) → All xs → All (order_desc key xs)
  All-order_desc key [] h = tt
  All-order_desc key (x ∷ xs) h =
      All-insert_desc key x (order_desc key xs) h.0 (All-order_desc key xs h.1)

  pub find_if-All : (p : A → Bool) (xs : List A) {x : A} → All xs → find_if p xs ≡ some x → P x
  find_if-All p [] h e = cc
  find_if-All p (x ∷ xs) h e = elim (Bool-cases (p x)) [
    | inl hit ↦ subst P (ground arith) h.0
    | inr miss ↦ find_if-All p xs h.1 (ground arith)
  ]

module _ {ℓ} {A : Type ℓ} where
  pub All-select_self : (p : A → Bool) (xs : List A) → All (λ x. p x ≡ true) (select p xs)
  All-select_self p [] = tt
  All-select_self p (x ∷ xs) = ground (arith, All-select_self p xs)

  -- A search finds the one value that it can find.
  pub find_if_unique :
      (p : A → Bool) (y : A) (xs : List A)
      → All (λ x. p x ≡ true → x ≡ y) xs
      → any p xs ≡ true
      → find_if p xs ≡ some y
  find_if_unique p y [] h e = cc
  find_if_unique p y (x ∷ xs) h e = elim (Bool-cases (p x)) [
    | inl hit ↦ rw hit (ap some (h.0 hit))
    | inr miss ↦ rw miss (find_if_unique p y xs h.1 (ground arith))
  ]
