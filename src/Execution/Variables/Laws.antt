-- ===== src/Execution/Variables/Laws.antt =====
-- What substitution comes to.
use nexustal.Execution.Replace.Laws.{one_pass, one_pass_absent, replace_all-one_pass}
use nexustal.Execution.Variables.{
  members_or_none, random_email, replacement_of, resolve, Draws, substitute_string,
  substitute_members, resolve_with, merge_into, apply_overrides,
}
use nexustal.Execution.Replace.{replace_all, index_of, starts_with}
use nexustal.Domain.Json.{object, end, JsonLib, get, member, Members, Json}
use nexustal.Common.{
  ℕ, ◌≡◌, refl, ◌∙◌, ◌≢◌, false, Option, none, some, [], ◌∷◌, ◌++◌, arith, Text, lit, eq_iff,
}

token_ne : (c : ℕ) (t : Text) → c ∷ t ≢ []
token_ne c t e = absurd (ground arith)

-- Resolving the dynamic variables always ends, and is five passes from the left, one for each kind
-- of variable in turn, each over what the one before has given.
pub resolve_with-one_pass :
    (draws : Draws) (input : Text)
    → resolve_with draws input
      ≡ one_pass (lit "{{$randomEmail}}") (random_email draws) 0 0 (
          one_pass (lit "{{$isoTimestamp}}") draws.iso_timestamp 0 0 (
            one_pass (lit "{{$timestamp}}") draws.timestamp 0 0 (
              one_pass
                (lit "{{$guid}}")
                draws.guid
                0
                0
                (one_pass (lit "{{$randomInt}}") draws.random_int 0 0 input))))
unfolding resolve_with lit
resolve_with-one_pass draws input =
    rw
      (
        replace_all-one_pass (lit "{{$randomInt}}") draws.random_int input (token_ne _ _),
        replace_all-one_pass (lit "{{$guid}}") draws.guid _ (token_ne _ _),
        replace_all-one_pass (lit "{{$timestamp}}") draws.timestamp _ (token_ne _ _),
        replace_all-one_pass (lit "{{$isoTimestamp}}") draws.iso_timestamp _ (token_ne _ _),
        replace_all-one_pass (lit "{{$randomEmail}}") (random_email draws) _ (token_ne _ _),
      )
      refl

-- The keys of a JSON object are all different.
unfoldable pub IsObject : Members → Type 0
IsObject end = Unit
IsObject (member k v rest) = (get k rest ≡ none) × IsObject rest

abbrev pub first_of : Option Json → Option Json → Option Json
first_of none fallback = fallback
first_of (some v) fallback = some v

merge_into-get :
    (lib : JsonLib) (k : Text) (target source : Members)
    → IsObject source
    → get k (merge_into lib target source) ≡ first_of (get k source) (get k target)
unfolding merge_into get IsObject
merge_into-get lib k target end h = refl
merge_into-get lib k target (member j v rest) (fresh, h) =
    ground (
      arith,
      merge_into-get lib k (lib.put j v target) rest h,
      lib.get-put j k v target,
      eq_iff j k,
    )

-- After overrides have been applied, a key has the value of the overrides where these have it, and
-- otherwise the value of the base, if the keys of the overrides are all different.
pub apply_overrides-get :
    (lib : JsonLib) (k : Text) (base overrides : Members)
    → IsObject overrides
    → (merged : Members) × (apply_overrides lib (object base) (object overrides) ≡ object merged)
      × (get k merged ≡ first_of (get k overrides) (get k base))
unfolding apply_overrides
apply_overrides-get lib k base overrides h =
    (merge_into lib base overrides, refl, merge_into-get lib k base overrides h)

starts_with-prefix :
    (xs ys text : Text) → starts_with xs text ≡ false → starts_with (xs ++ ys) text ≡ false
unfolding starts_with
starts_with-prefix [] ys text h = absurd (ground arith)
starts_with-prefix (x ∷ xs) ys [] h = refl
starts_with-prefix (x ∷ xs) ys (c ∷ cs) h = ground (arith, starts_with-prefix xs ys cs)

-- A token that starts with a text does not occur where the text does not.
index_of-prefix :
    (x : ℕ) (xs ys text : Text)
    → index_of (x ∷ xs) text ≡ none
    → index_of (x ∷ (xs ++ ys)) text ≡ none
unfolding index_of
index_of-prefix x xs ys [] h = refl
index_of-prefix x xs ys (c ∷ cs) h =
    ground (arith, index_of-prefix x xs ys cs, starts_with-prefix (x ∷ xs) ys (c ∷ cs))

unfoldable pub IsPlain : Text → Type 0
IsPlain text = index_of (lit "{{") text ≡ none

replace_all_plain :
    (rest text : Text) (generator : ℕ → Text)
    → IsPlain text
    → replace_all text (lit "{{" ++ rest) generator ≡ text
unfolding IsPlain lit
replace_all_plain rest text generator h =
    replace_all-one_pass (lit "{{" ++ rest) generator text (token_ne _ _)
    ∙ one_pass_absent (lit "{{" ++ rest) generator 0 text (index_of-prefix _ _ rest text h)

substitute_members_plain :
    (lib : JsonLib) (m : Members) (text : Text)
    → IsPlain text
    → substitute_members lib m text ≡ text
unfolding substitute_members
substitute_members_plain lib end text h = refl
substitute_members_plain lib (member k v rest) text h =
    rw (replace_all_plain (k ++ lit "}}") text (λ call. replacement_of lib v) h)
      (substitute_members_plain lib rest text h)

resolve_with_plain : (draws : Draws) (text : Text) → IsPlain text → resolve_with draws text ≡ text
unfolding resolve_with lit
resolve_with_plain draws text h =
    rw
      (
        replace_all_plain (lit "$randomInt}}") text draws.random_int h,
        replace_all_plain (lit "$guid}}") text draws.guid h,
        replace_all_plain (lit "$timestamp}}") text draws.timestamp h,
        replace_all_plain (lit "$isoTimestamp}}") text draws.iso_timestamp h,
        replace_all_plain (lit "$randomEmail}}") text (random_email draws) h,
      )
      refl

-- A text without two opening braces in a row is not changed by substitution, whatever the variables
-- and the draws are.
pub substitute_string_plain :
    (lib : JsonLib) (draws : ℕ → Draws) (variables : Json) (text : Text) (call : ℕ)
    → IsPlain text
    → (substitute_string lib draws variables text call).0 ≡ text
unfolding substitute_string resolve
substitute_string_plain lib draws variables text call h =
    rw (resolve_with_plain (draws call) text h)
      (substitute_members_plain lib (members_or_none variables) text h)
