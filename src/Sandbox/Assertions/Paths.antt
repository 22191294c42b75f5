-- ===== src/Sandbox/Assertions/Paths.antt =====
-- Paths into a value.
use nexustal.Sandbox.Assertions.{
  Values, json_path_lookup, descend, path_parts, split_dots, in_first,
}
use nexustal.Common.{
  ℕ, ◌≡◌, refl, sym, ap, ◌∙◌, Bool, not, List, [], ◌∷◌, ◌++◌, arith, Text, lit, is_empty, select,
}

in_first-twice :
    (c d : ℕ) (parts rest : List Text)
    → in_first c (in_first d parts ++ rest) ≡ in_first c (in_first d parts) ++ rest
in_first-twice c d [] rest = refl
in_first-twice c d (part ∷ parts) rest = refl

in_first-append :
    (c : ℕ) (s : Text) (rest : List Text)
    → in_first c (split_dots s ++ rest) ≡ in_first c (split_dots s) ++ rest
unfolding split_dots
in_first-append c [] rest = refl
in_first-append c (d ∷ s) rest = ground (arith, in_first-twice c d (split_dots s) rest)

split_dots-append : (p q : Text) → split_dots (p ++ lit "." ++ q) ≡ split_dots p ++ split_dots q
unfolding split_dots lit
split_dots-append [] q = refl
split_dots-append (c ∷ p) q =
    ground (arith, split_dots-append p q, in_first-append c p (split_dots q))

select-append :
    (f : Text → Bool) (xs ys : List Text) → select f (xs ++ ys) ≡ select f xs ++ select f ys
select-append f [] ys = refl
select-append f (x ∷ xs) ys = ground (arith, select-append f xs ys)

path_parts-append : (p q : Text) → path_parts (p ++ lit "." ++ q) ≡ path_parts p ++ path_parts q
unfolding path_parts
path_parts-append p q =
    ap (select (λ part. not (is_empty part))) (split_dots-append p q)
    ∙ select-append _ (split_dots p) (split_dots q)

module _ {V : Type 0} (js : Values V) where
  descend-append :
      (ps qs : List Text) (v : V) → descend js v (ps ++ qs) ≡ descend js (descend js v ps) qs
  unfolding descend
  descend-append [] qs v = refl
  descend-append (p ∷ ps) qs v = descend-append ps qs _

  json_path_lookup-parts :
      (v : V) (path : Text) → json_path_lookup js v path ≡ descend js v (path_parts path)
  unfolding json_path_lookup path_parts split_dots descend
  json_path_lookup-parts v [] = refl
  json_path_lookup-parts v (c ∷ path) = refl

-- A look-up along two paths that a dot joins is a look-up along the second in what is found along
-- the first, whatever the paths are: empty ones, and dots before, between or behind their parts,
-- make no step.
pub json_path_lookup-append :
    {V : Type 0} (js : Values V) (v : V) (p q : Text)
    → json_path_lookup js v (p ++ lit "." ++ q) ≡ json_path_lookup js (json_path_lookup js v p) q
json_path_lookup-append js v p q =
    json_path_lookup-parts js v (p ++ lit "." ++ q)
    ∙ ap (descend js v) (path_parts-append p q)
    ∙ descend-append js (path_parts p) (path_parts q) v
    ∙ sym (json_path_lookup-parts js (descend js v (path_parts p)) q)
    ∙ ap (λ w. json_path_lookup js w q) (sym (json_path_lookup-parts js v p))
