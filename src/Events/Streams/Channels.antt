-- ===== src/Events/Streams/Channels.antt =====
-- Which channels are a user's.
use nexustal.Domain.Identity.{Uuid}
use nexustal.Execution.Replace.{starts_with}
use nexustal.Events.Streams.{copied, ends_with, user_of_channel}
use nexustal.Common.{
  ℕ, zero, suc, ◌+◌, ◌-◌, ◌≤◌, ◌≡◌, refl, sym, ap, ◌∙◌, subst, inl, inr, Bool, true, ◌&&◌, ◌||◌,
  some, [], ◌∷◌, ◌++◌, arith, ltb, leb, Bool-cases, Text, lit, ◌==◌, eq_iff, length, take, drop,
  drop-zero,
}

-- The channel "user:<id>:notifications" is the user's. A channel of fewer characters than the
-- prefix and the suffix have together counts as that of what stands behind its first five.
abbrev pub belongs_to : Text → Uuid → Bool
belongs_to channel user_id =
    channel == lit "user:" ++ (user_id ++ lit ":notifications")
    || (ltb (length channel) 19 && drop channel 5 == user_id)

take-drop : (xs : Text) (n : ℕ) → take xs n ++ drop xs n ≡ xs
take-drop [] n = refl
take-drop (x ∷ xs) zero = refl
take-drop (x ∷ xs) (suc n) = ap (λ l. x ∷ l) (take-drop xs n)

drop-drop : (xs : Text) (m n : ℕ) → drop (drop xs m) n ≡ drop xs (m + n)
drop-drop [] m n = refl
drop-drop (x ∷ xs) zero n = ap (drop (x ∷ xs)) (let e : n ≡ zero + n = omega arith in e)
drop-drop (x ∷ xs) (suc m) n =
    drop-drop xs m n ∙ ap (drop (x ∷ xs)) (let e : suc (m + n) ≡ suc m + n = omega arith in e)

length-drop : (xs : Text) (n : ℕ) → length (drop xs n) ≡ length xs - n
length-drop [] n = omega arith
length-drop (x ∷ xs) zero = omega arith
length-drop (x ∷ xs) (suc n) = omega (arith, length-drop xs n)

-- A text that starts with another is that one and what is left.
starts_with-drop : (p t : Text) → starts_with p t ≡ true → p ++ drop t (length p) ≡ t
unfolding starts_with
starts_with-drop [] t h = drop-zero t
starts_with-drop (x ∷ p) [] h = absurd (ground (arith, h))
starts_with-drop (x ∷ p) (y ∷ t) h =
    let same : x ≡ y = ground (arith, h) in
    ap (λ l. x ∷ l) (starts_with-drop p t (ground (arith, h))) ∙ ap (λ c. c ∷ t) same

starts_with-whole : (p t : Text) → starts_with p t ≡ true → length t ≤ length p → t ≡ p
unfolding starts_with
starts_with-whole [] [] h k = refl
starts_with-whole [] (y ∷ t) h k = absurd (omega (arith, k))
starts_with-whole (x ∷ p) [] h k = absurd (ground (arith, h))
starts_with-whole (x ∷ p) (y ∷ t) h k =
    let same : y ≡ x = ground (arith, h) in
    ap (λ l. y ∷ l) (starts_with-whole p t (ground (arith, h)) (omega (arith, k)))
    ∙ ap (λ c. c ∷ p) same

prefix_size : length (lit "user:") ≡ 5
unfolding lit
prefix_size = refl

suffix_size : length (lit ":notifications") ≡ 14
unfolding lit
suffix_size = refl

ends_with-drop :
    (suffix text : Text)
    → ends_with suffix text ≡ true
    → drop text (length text - length suffix) ≡ suffix
unfolding ends_with
ends_with-drop suffix text h =
    let fits : leb (length suffix) (length text) ≡ true = ground (arith, h) in
    let starts : starts_with suffix (drop text (length text - length suffix)) ≡ true =
      ground (arith, h) in
    starts_with-whole suffix (drop text (length text - length suffix)) starts
      (ground (arith, fits, length-drop text (length text - length suffix)))

-- A long channel with the prefix and the suffix is what stands between them.
between :
    (channel : Text)
    → starts_with (lit "user:") channel ≡ true
    → ends_with (lit ":notifications") channel ≡ true
    → 19 ≤ length channel
    → lit "user:" ++ (take (drop channel 5) (length channel - 5 - 14) ++ lit ":notifications")
      ≡ channel
between channel starts ends long =
    let n = length channel - 5 - 14 in
    let rest : lit "user:" ++ drop channel 5 ≡ channel =
      subst (λ k. lit "user:" ++ drop channel k ≡ channel) prefix_size
        (starts_with-drop (lit "user:") channel starts) in
    let last : drop (drop channel 5) n ≡ lit ":notifications" =
      drop-drop channel 5 n
      ∙ ap (drop channel) (
          let e : 5 + n ≡ length channel - length (lit ":notifications") =
            omega (arith, long, suffix_size) in
          e)
      ∙ ends_with-drop (lit ":notifications") channel ends in
    ap (λ t. lit "user:" ++ (take (drop channel 5) n ++ t)) (sym last)
    ∙ ap (λ t. lit "user:" ++ t) (take-drop (drop channel 5) n)
    ∙ rest

take-all : (xs : Text) (n : ℕ) → length xs ≤ n → take xs n ≡ xs
take-all [] n h = refl
take-all (x ∷ xs) zero h = absurd (omega (arith, h))
take-all (x ∷ xs) (suc n) h = ap (λ l. x ∷ l) (take-all xs n (omega (arith, h)))

-- The user that the callback reads off a channel is the one it belongs to.
pub user_of_channel-belongs_to :
    (channel : Text) (user_id : Uuid)
    → user_of_channel channel ≡ some user_id
    → belongs_to channel user_id ≡ true
unfolding user_of_channel
user_of_channel-belongs_to channel user_id h =
    elim (Bool-cases
      (starts_with (lit "user:") channel && ends_with (lit ":notifications") channel)) [
        | inr other ↦ absurd (ground (arith, other, h))
        | inl framed ↦ elim (Bool-cases (ltb (length channel) 19)) [
          | inl short ↦
              let whole : take (drop channel 5) (copied (length channel)) ≡ drop channel 5 =
                rw short (
                  take-all (drop channel 5) (length channel)
                    (omega (arith, length-drop channel 5))) in
              let read : drop channel 5 ≡ user_id = ground (arith, framed, h, whole) in
              ground (arith, short, (eq_iff (drop channel 5) user_id).1 read)
          | inr long ↦
              let read : take (drop channel 5) (length channel - 5 - 14) ≡ user_id =
                ground (arith, framed, h, long) in
              let parts : lit "user:" ++ (user_id ++ lit ":notifications") ≡ channel =
                ap (λ u. lit "user:" ++ (u ++ lit ":notifications")) (sym read)
                ∙ between channel (ground (arith, framed)) (ground (arith, framed))
                    (ground (arith, long)) in
              ground (arith, (eq_iff channel _).1 (sym parts))
        ]
      ]
