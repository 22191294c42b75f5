-- ===== src/Http.antt =====
-- Requests and responses of the HTTP server (drogon), as the controllers of backend/src/controllers
-- and the filter of backend/src/filters use them. JsonCpp's values are modelled as JSON values.
pub mod Filter
pub mod Payloads
pub mod Endpoints
pub mod Invitations
pub mod Auth
pub mod Wizard
pub mod Routes
use nexustal.Domain.Json.{string, boolean, get, object_of, object, Members, Json, JsonLib}
use nexustal.Common.{
  ℕ, zero, suc, ◌+◌, ◌-◌, ◌*◌, ◌/◌, ◌%◌, ◌^◌, ◌≤◌, ◌<◌, String, ◌≡◌, refl, sym, ap, ◌∙◌, subst, ◌≢◌,
  ◌↔◌, ◌⊎◌, inl, inr, Bool, true, false, not, ◌&&◌, ◌||◌, Option, none, some, List, [], ◌∷◌, ◌++◌,
  append_assoc, append-nil, arith, ltb, leb, eqb, if◌then◌else◌, Bool-cases, Option-cases, is_some,
  Text, lit, ◌==◌, is_empty, eq_iff, eq_refl, ==-false, length, length-append, find_if, get_elem?,
  modify, take-length, drop-length, take, drop, drop-zero, take-append, drop-append, update_where,
  count_if, count_if-pos, find_if-any, find_if-holds, insert_desc, order_desc, any-insert_desc,
  any-order_desc, All-insert_desc, All-order_desc, find_if-All, any-select, any-false, any_mono,
  any-append, All-append, All-select_self, find_if_unique, any, select, All, All-select, Dict,
  lookup, put, without, lookup-put, lookup-without, Action, ◌>>=◌, ◌>>◌, pure,
}

-- The headers under their names in lower case, as the server stores and looks them up, and the
-- body where it is JSON.
pub record Request : Type 0 where
  pub headers : Dict Text
  pub json : Option Json

pub record Response : Type 0 where
  pub status : ℕ
  pub payload : Json

abbrev or_empty : Option Text → Text
or_empty none = []
or_empty (some value) = value

-- `getHeader`, which gives an empty text for a header that is not there, and `addHeader`
unfoldable pub get_header : Text → Request → Text
get_header name request = or_empty (lookup name request.headers)

unfoldable pub add_header : Text → Text → Request → Request
add_header name value request = record request { headers = put name value request.headers }

-- The header that was added is the one that is read; the others stay.
pub get_header-add_header :
    (name other value : Text) (request : Request)
    → get_header other (add_header name value request)
      ≡ (if name == other then value else get_header other request)
unfolding get_header add_header
get_header-add_header name other value request =
    ground (arith, lookup-put name other value request.headers)

-- The reads of JsonCpp, with nothing where they throw (and numbers that are not negative); what `writeString` prints, read by
-- nlohmann::json; and the parsing of a printed value by a `CharReader`.
pub record JsonCpp : Type 0 where
  pub member : Json → Text → Option Json
  pub is_member : Json → Text → Option Bool
  pub as_string : Json → Option Text
  pub as_int : Json → Option ℕ
  pub to_nlohmann : Json → Option Json
  pub read : Text → Option Json
  pub member_present :
      (k : Text) (v : Json) (m : Members) → get k m ≡ some v → member (object m) k ≡ some v
  pub is_member_object :
      (k : Text) (m : Members) → is_member (object m) k ≡ some (is_some (get k m))
  pub as_string_string : (t : Text) → as_string (string t) ≡ some t

-- `newHttpJsonResponse`, and the same with a status
abbrev pub ok : Json → Response
ok payload = record { status = 200; payload = payload }

abbrev pub answer : ℕ → Json → Response
answer status payload = record { status = status; payload = payload }

abbrev pub error : JsonLib → ℕ → Text → Response
error lib status message =
    answer status (object (object_of lib ((lit "error", string message) ∷ [])))

abbrev pub outcome : JsonLib → (failed : ℕ) → Bool → Response
outcome lib failed success =
    answer (if success then 200 else failed)
      (object (object_of lib ((lit "success", boolean success) ∷ [])))
