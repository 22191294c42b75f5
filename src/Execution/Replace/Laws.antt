-- ===== src/Execution/Replace/Laws.antt =====
-- The loop against one pass over the text.
use nexustal.Common.{
  drop-length, take-length, ℕ, zero, suc, ◌+◌, ◌-◌, ◌<◌, ◌≡◌, refl, sym, ap, ◌∙◌, ◌≢◌, inl, inr,
  true, none, some, [], ◌∷◌, ◌++◌, append_assoc, arith, if◌then◌else◌, Bool-cases, Option-cases,
  Text, length, length-append, take-append, drop-append,
}
use nexustal.Execution.Replace.{
  from, starts_with, index_of, find, replace, replace_from, replace_all,
}

-- Replacing the middle of a text.
replace-append :
    (done before mid after g : Text)
    → replace (done ++ (before ++ (mid ++ after))) (length done + length before) (length mid) g
      ≡ (done ++ (before ++ g)) ++ after
unfolding replace
replace-append done before mid after g =
    let sum : length done + length before + length mid
        ≡ length done + (length before + length mid) =
      omega arith in
    rw
      (
        sum,
        take-append done (before ++ (mid ++ after)) (length before),
        take-length before (mid ++ after),
        drop-append done (before ++ (mid ++ after)) (length before + length mid),
        drop-append before (mid ++ after) (length mid),
        drop-length mid after,
      )
      (simp append_assoc)

find-append :
    (token done rest : Text)
    → find (done ++ rest) token (length done) ≡ from (length done) (index_of token rest)
unfolding find
find-append token done rest = rw (drop-length done rest) refl

positive : (token : Text) → token ≢ [] → 0 < length token
positive [] n = absurd (n refl)
positive (x ∷ xs) n = omega arith

module _ (token : Text) (generator : ℕ → Text) where
  -- One pass from the left: an occurrence of the token gives way to the next replacement, and the
  -- pass goes on behind it; `skip` counts the characters of the occurrence that are still to pass.
  unfoldable pub one_pass : ℕ → ℕ → Text → Text
  one_pass calls skip [] = []
  one_pass calls (suc skip) (c ∷ cs) = one_pass calls skip cs
  one_pass calls zero (c ∷ cs) =
      let inside = generator calls ++ one_pass (suc calls) (length token - 1) cs in
      let outside = c ∷ one_pass calls 0 cs in
      if starts_with token (c ∷ cs) then inside else outside

  one_pass-skip :
      (calls : ℕ) (xs ys : Text) → one_pass calls (length xs) (xs ++ ys) ≡ one_pass calls 0 ys
  unfolding one_pass
  one_pass-skip calls [] ys = refl
  one_pass-skip calls (x ∷ xs) ys = one_pass-skip calls xs ys

  starts_with-append :
      (xs text : Text) → starts_with xs text ≡ true → (rest : Text) × (text ≡ xs ++ rest)
  unfolding starts_with
  starts_with-append [] text h = (text, refl)
  starts_with-append (x ∷ xs) [] h = cc
  starts_with-append (x ∷ xs) (y ∷ ys) h =
      let (rest, e) = starts_with-append xs ys (ground arith) in (rest, ground arith)

  -- Where the token does not occur, the pass changes nothing.
  pub one_pass_absent :
      (calls : ℕ) (text : Text) → index_of token text ≡ none → one_pass calls 0 text ≡ text
  unfolding one_pass index_of
  one_pass_absent calls [] h = refl
  one_pass_absent calls (c ∷ cs) h = ground (arith, one_pass_absent calls cs)

  -- The first occurrence splits the text, and the pass with it.
  abbrev Split : Text → ℕ → Type 0
  Split text i =
      (before after : Text) × (text ≡ before ++ (token ++ after))
      × (i ≡ length before)
      × ((calls : ℕ)
          → one_pass calls 0 text ≡ before ++ (generator calls ++ one_pass (suc calls) 0 after))

  one_pass-skip_token :
      (tok : Text) (calls c : ℕ) (cs after : Text)
      → tok ≢ []
      → c ∷ cs ≡ tok ++ after
      → one_pass calls (length tok - 1) cs ≡ one_pass calls 0 after
  one_pass-skip_token [] calls c cs after n e = absurd (n refl)
  one_pass-skip_token (x ∷ xs) calls c cs after n e =
      let same : cs ≡ xs ++ after = ground arith in
      let size : length (x ∷ xs) - 1 ≡ length xs = omega arith in
      rw (size, same) (one_pass-skip calls xs after)

  module _ (named : token ≢ []) where
    index_of-Split : (text : Text) (i : ℕ) → index_of token text ≡ some i → Split text i
    unfolding index_of one_pass
    index_of-Split [] i h = absurd (ground arith)
    index_of-Split (c ∷ cs) i h = elim (Bool-cases (starts_with token (c ∷ cs))) [
      | inl hit ↦
          let (after, e) = starts_with-append token (c ∷ cs) hit in
          (
            [],
            after,
            e,
            ground arith,
            λ calls. rw hit (
                ap (λ l. generator calls ++ l)
                  (one_pass-skip_token token (suc calls) c cs after named e)),
          )
      | inr miss ↦ elim (Option-cases (index_of token cs)) [
        | inl missing ↦ absurd (ground arith)
        | inr (j, found) ↦
            let (before, after, e, size, pass) = index_of-Split cs j found in
            (
              c ∷ before,
              after,
              ap (λ l. c ∷ l) e,
              ground arith,
              λ calls. rw miss (ap (λ l. c ∷ l) (pass calls)),
            )
      ]
    ]

    shorter_rest :
        (before after rest : Text) (fuel : ℕ)
        → length rest < suc fuel
        → rest ≡ before ++ (token ++ after)
        → length after < fuel
    shorter_rest before after rest fuel h e = omega (
      arith,
      ap length e,
      length-append before (token ++ after),
      length-append token after,
      positive token named,
    )

    -- The loop over a text whose first part is done.
    replace_from-one_pass :
        (fuel calls : ℕ) (done rest : Text)
        → length rest < fuel
        → replace_from fuel token generator calls (length done) (done ++ rest)
          ≡ some (done ++ one_pass calls 0 rest)
    unfolding replace_from
    replace_from-one_pass zero calls done rest h = absurd (omega arith)
    replace_from-one_pass (suc fuel) calls done rest h = elim (Option-cases (index_of token rest)) [
      | inl missing ↦
          rw (find-append token done rest, missing, replace_from)
            (ap (λ l. some (done ++ l)) (sym (one_pass_absent calls rest missing)))
      | inr (i, found) ↦
          let (before, after, e, size, pass) = index_of-Split rest i found in
          let done' = done ++ (before ++ generator calls) in
          let shorter : length after < fuel = shorter_rest before after rest fuel h e in
          let position : length done + i + length (generator calls) ≡ length done' = omega (
            arith,
            size,
            length-append done (before ++ generator calls),
            length-append before (generator calls),
          ) in
          rw (find-append token done rest, found, replace_from)
            (rw (position, size, e, replace-append done before token after (generator calls))
              (replace_from-one_pass fuel (suc calls) done' after shorter
                ∙ ap some (rw (← e) (rw (pass calls) (simp append_assoc)))))
    ]

  -- Replacing every occurrence of a token that is not empty always ends, and gives the text of one
  -- pass from the left: each occurrence gives way to the next replacement, what a replacement puts
  -- in is not searched again, and all else stays.
  pub replace_all-one_pass :
      (text : Text) → token ≢ [] → replace_all text token generator ≡ one_pass 0 0 text
  unfolding replace_all
  replace_all-one_pass text named =
      rw (replace_from-one_pass named (suc (length text)) 0 [] text (omega arith)) refl
