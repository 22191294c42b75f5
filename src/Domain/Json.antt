-- ===== src/Domain/Json.antt =====
-- JSON values as nlohmann::json holds them: a number stands for its printed form, and an object
-- for its members in the order of iteration. Parsing, printing, assignment of a member and reads
-- with a default are the library's, with the documented behaviour as laws.
use nexustal.Common.{
  List, ◌≡◌, refl, Bool, Option, none, some, [], ◌∷◌, arith, if◌then◌else◌, Text, ◌==◌, Dict,
  lookup,
}

mutual
  pub data Json : Type 0 where
    null : Json
    boolean : Bool → Json
    number : Text → Json
    string : Text → Json
    array : Items → Json
    object : Members → Json

  pub data Items : Type 0 where
    nil : Items
    cons : Json → Items → Items

  pub data Members : Type 0 where
    end : Members
    member : Text → Json → Members → Members

-- `json::object()`, `json::array()`
abbrev pub empty_object : Json
empty_object = object end

abbrev pub empty_array : Json
empty_array = array nil

-- The member of a key, as `find` and `contains` see it.
unfoldable pub get : Text → Members → Option Json
get k end = none
get k (member j v m) = if j == k then some v else get k m

-- `push_back`
unfoldable pub push_back : Items → Json → Items
push_back nil v = cons v nil
push_back (cons w vs) v = cons w (push_back vs v)

pub record JsonLib : Type 0 where
  -- `parse(text, nullptr, false)`, with nothing for a discarded value
  pub parse : Text → Option Json
  pub dump : Json → Text
  -- `object[key] = value`
  pub put : Text → Json → Members → Members
  -- `value(key, fallback)`, with nothing where it throws
  pub text_value : Json → Text → Text → Option Text
  pub bool_value : Json → Text → Bool → Option Bool
  pub json_value : Json → Text → Json → Option Json
  -- `value[key] = member`, `get<std::string>()` and `get<std::vector<std::string>>()`, with nothing
  -- where they throw; and a value built from a vector
  pub assign : Text → Json → Json → Option Json
  pub text_of : Json → Option Text
  pub texts_of : Json → Option (List Text)
  pub of_texts : List Text → Json
  pub assign_object :
      (k : Text) (v : Json) (m : Members) → assign k v (object m) ≡ some (object (put k v m))
  pub text_of_string : (t : Text) → text_of (string t) ≡ some t
  pub texts_of-of_texts : (ts : List Text) → texts_of (of_texts ts) ≡ some ts
  pub get-put :
      (k j : Text) (v : Json) (m : Members)
      → get j (put k v m) ≡ (if k == j then some v else get j m)
  pub text_value_present :
      (k d t : Text) (m : Members) → get k m ≡ some (string t) → text_value (object m) k d ≡ some t
  pub text_value_absent :
      (k d : Text) (m : Members) → get k m ≡ none → text_value (object m) k d ≡ some d
  pub bool_value_present :
      (k : Text) (d b : Bool) (m : Members)
      → get k m ≡ some (boolean b)
      → bool_value (object m) k d ≡ some b
  pub json_value_present :
      (k : Text) (d v : Json) (m : Members) → get k m ≡ some v → json_value (object m) k d ≡ some v

-- An object written as an initializer list of pairs.
unfoldable pub object_of : JsonLib → Dict Json → Members
object_of lib [] = end
object_of lib ((k, v) ∷ rest) = lib.put k v (object_of lib rest)

-- The member that is written for a key is the first of that key in the list.
pub get-object_of :
    (lib : JsonLib) (k : Text) (pairs : Dict Json) → get k (object_of lib pairs) ≡ lookup k pairs
unfolding object_of get lookup
get-object_of lib k [] = refl
get-object_of lib k ((j, v) ∷ rest) =
    ground (arith, lib.get-put j k v (object_of lib rest), get-object_of lib k rest)
