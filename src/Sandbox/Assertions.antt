-- ===== src/Sandbox/Assertions.antt =====
-- The assertions of the script that backend/infrastructure/sandbox/nt_api_bindings.cpp installs. The
-- values of the engine are a parameter. An assertion that fails throws a message; nothing stands
-- for one that passes.
pub mod Paths
use nexustal.Common.{
  ℕ, zero, suc, ◌+◌, ◌-◌, ◌*◌, ◌/◌, ◌%◌, ◌^◌, ◌≤◌, ◌<◌, String, ◌≡◌, refl, sym, ap, ◌∙◌, subst, ◌≢◌,
  ◌↔◌, ◌⊎◌, inl, inr, Bool, true, false, not, ◌&&◌, ◌||◌, Option, none, some, List, [], ◌∷◌, ◌++◌,
  append_assoc, append-nil, arith, ltb, leb, eqb, if◌then◌else◌, Bool-cases, Option-cases, is_some,
  Text, lit, ◌==◌, is_empty, eq_iff, eq_refl, ==-false, length, length-append, find_if, get_elem?,
  modify, take-length, drop-length, take, drop, drop-zero, take-append, drop-append, update_where,
  count_if, count_if-pos, find_if-any, find_if-holds, insert_desc, order_desc, any-insert_desc,
  any-order_desc, All-insert_desc, All-order_desc, find_if-All, any-select, any-false, any_mono,
  any-append, All-append, All-select_self, find_if_unique, any, select, All, All-select, Dict,
  lookup, put, without, lookup-put, lookup-without, Action, ◌>>=◌, ◌>>◌, pure,
}

pub record Values (V : Type 0) : Type 0 where
  pub undefined : V
  pub empty_object : V
  -- `Number.MAX_SAFE_INTEGER`
  pub max_safe_integer : V
  pub is_nullish : V → Bool
  pub is_truthy : V → Bool
  -- `value[key]`, of a value that is neither undefined nor null
  pub property : V → Text → V
  -- `===` and `>=`
  pub strict_equal : V → V → Bool
  pub at_least : V → V → Bool
  -- `JSON.stringify`, nothing where it gives undefined
  pub stringify : V → Option Text
  -- a value in a template, and `toLowerCase`
  pub display : V → Text
  pub lower_case : Text → Text

abbrev pub in_first : ℕ → List Text → List Text
in_first c [] = (c ∷ []) ∷ []
in_first c (part ∷ parts) = (c ∷ part) ∷ parts

-- `path.split('.')`
unfoldable pub split_dots : Text → List Text
split_dots [] = [] ∷ []
split_dots (c ∷ s) = let parts = split_dots s in if eqb c 46 then [] ∷ parts else in_first c parts

-- `.filter(Boolean)`
unfoldable pub path_parts : Text → List Text
path_parts path = select (λ part. not (is_empty part)) (split_dots path)

abbrev same_text : Option Text → Option Text → Bool
same_text none none = true
same_text none (some _) = false
same_text (some _) none = false
same_text (some a) (some b) = a == b

abbrev unless : Bool → Text → Option Text
unless holds message = if holds then none else some message

module _ {V : Type 0} (js : Values V) where
  abbrev or_if_falsy : V → V → V
  or_if_falsy v fallback = if js.is_truthy v then v else fallback

  abbrev if_nullish : V → V → V
  if_nullish v fallback = if js.is_nullish v then fallback else v

  -- The parts after one another: nothing has a property of undefined or null.
  unfoldable pub descend : V → List Text → V
  descend current [] = current
  descend current (part ∷ parts) =
      descend (if js.is_nullish current then js.undefined else js.property current part) parts

  unfoldable pub json_path_lookup : V → Text → V
  unfolding descend path_parts
  json_path_lookup value path = if is_empty path then value else descend value (path_parts path)

  -- `context` is the global `__nt_context`.
  abbrev pub current_response : (context : V) → V
  current_response context =
      if js.is_truthy context
      then or_if_falsy (js.property context (lit "response")) js.empty_object
      else js.empty_object

  abbrev json_text : V → Text
  json_text v = elim (js.stringify v) [ none ↦ lit "undefined" | some t ↦ t ]

  -- `nt.expect(actual).to.equal(expected)`
  unfoldable pub expect_equal : V → V → Option Text
  expect_equal actual expected =
      unless (js.strict_equal actual expected)
        (lit "Expected " ++ (json_text actual ++ (lit " to equal " ++ json_text expected)))

  -- `nt.response.to.have.…`
  unfoldable pub have_status : (context code : V) → Option Text
  have_status context code =
      let status = js.property (current_response context) (lit "status") in
      unless (js.strict_equal status code) (
        lit "Expected response status "
        ++ (js.display code ++ (lit " but got " ++ js.display status)))

  unfoldable pub header_value : (context : V) → Text → V
  header_value context key =
      let headers =
        or_if_falsy (js.property (current_response context) (lit "headers")) js.empty_object in
      if_nullish (js.property headers key) (js.property headers (js.lower_case key))

  unfoldable pub have_header : (context : V) → Text → V → Option Text
  unfolding header_value
  have_header context key value =
      let actual = header_value context key in
      unless (js.strict_equal actual value) (
        lit "Expected header "
        ++ (key
            ++ (lit " to equal " ++ (json_text value ++ (lit " but got " ++ json_text actual)))))

  unfoldable pub body_value : (context : V) → Text → V
  unfolding json_path_lookup
  body_value context path =
      json_path_lookup
        (or_if_falsy (js.property (current_response context) (lit "jsonBody")) js.empty_object) path

  unfoldable pub have_json_body : (context : V) → Text → V → Option Text
  unfolding body_value
  have_json_body context path value =
      let actual = body_value context path in
      unless (same_text (js.stringify actual) (js.stringify value)) (
        lit "Expected response json at "
        ++ (path
            ++ (lit " to equal " ++ (json_text value ++ (lit " but got " ++ json_text actual)))))

  unfoldable pub have_response_time_less_than : (context ms : V) → Option Text
  have_response_time_less_than context ms =
      let actual =
        if_nullish (js.property (current_response context) (lit "responseTimeMs"))
          js.max_safe_integer in
      unless (not (js.at_least actual ms)) (
        lit "Expected response time less than "
        ++ (js.display ms ++ (lit " but got " ++ js.display actual)))
