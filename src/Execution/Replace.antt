-- ===== src/Execution/Replace.antt =====
-- The replacement loop of backend/application/execution/dynamic_variables.hpp (`replaceAll`), which
-- `substituteString` of request_executor.cpp repeats. The generator's results are numbered by its
-- calls. `find` and `replace` are those of std::string, for positions within the text.
pub mod Laws
use nexustal.Common.{
  ℕ, zero, suc, ◌+◌, ◌-◌, ◌*◌, ◌/◌, ◌%◌, ◌^◌, ◌≤◌, ◌<◌, String, ◌≡◌, refl, sym, ap, ◌∙◌, subst, ◌≢◌,
  ◌↔◌, ◌⊎◌, inl, inr, Bool, true, false, not, ◌&&◌, ◌||◌, Option, none, some, List, [], ◌∷◌, ◌++◌,
  append_assoc, append-nil, arith, ltb, leb, eqb, if◌then◌else◌, Bool-cases, Option-cases, is_some,
  Text, lit, ◌==◌, is_empty, eq_iff, eq_refl, ==-false, length, length-append, find_if, get_elem?,
  modify, take, drop, drop-zero, take-append, drop-append, update_where, count_if, count_if-pos,
  find_if-any, find_if-holds, insert_desc, order_desc, any-insert_desc, any-order_desc,
  All-insert_desc, All-order_desc, find_if-All, any-select, any-false, any_mono, any-append,
  All-append, All-select_self, find_if_unique, any, select, All, All-select, Dict, lookup, put,
  without, lookup-put, lookup-without, Action, ◌>>=◌, ◌>>◌, pure,
}

unfoldable pub starts_with : Text → Text → Bool
starts_with [] text = true
starts_with (x ∷ xs) [] = false
starts_with (x ∷ xs) (y ∷ ys) = eqb x y && starts_with xs ys

abbrev next : Option ℕ → Option ℕ
next none = none
next (some i) = some (suc i)

unfoldable pub index_of : Text → Text → Option ℕ
unfolding starts_with
index_of token [] = if is_empty token then some 0 else none
index_of token (c ∷ cs) =
    let rest = next (index_of token cs) in if starts_with token (c ∷ cs) then some 0 else rest

abbrev pub from : ℕ → Option ℕ → Option ℕ
from position none = none
from position (some i) = some (position + i)

-- `text.find(token, position)`
unfoldable pub find : Text → Text → ℕ → Option ℕ
unfolding index_of
find text token position = from position (index_of token (drop text position))

-- `text.replace(position, count, replacement)`
unfoldable pub replace : Text → ℕ → ℕ → Text → Text
replace text position count replacement =
    take text position ++ (replacement ++ drop text (position + count))

-- The loop on fuel: nothing means that the fuel ran out. `calls` counts the generator's calls.
unfoldable pub replace_from : ℕ → Text → (ℕ → Text) → ℕ → ℕ → Text → Option Text
unfolding find replace
replace_from zero token generator calls position text = none
replace_from (suc fuel) token generator calls position text = elim (find text token position) [
  | none ↦ some text
  | some found ↦
      replace_from fuel token generator (suc calls) (found + length (generator calls))
        (replace text found (length token) (generator calls))
]

abbrev pub or_else : Text → Option Text → Text
or_else text none = text
or_else text (some result) = result

unfoldable pub replace_all : Text → Text → (ℕ → Text) → Text
unfolding replace_from
replace_all text token generator =
    or_else text (replace_from (suc (length text)) token generator 0 0 text)
