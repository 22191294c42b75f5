-- ===== src/Tests/Http.antt =====
-- Requests with a token that says who its user is.
use nexustal.Http.Routes.{Method, on_get, on_post, on_put, on_delete, RouteEntry, Router}
use nexustal.Http.Wizard.Laws.{create_admin_route-open}
use nexustal.Http.Invitations.Laws.{guarded-send-forbidden}
use nexustal.Storage.Details.Laws.{answering}
use nexustal.Http.Invitations.{forbidden, send}
use nexustal.Tests.Variables.{of_texts-nil, library}
use nexustal.Http.Payloads.Laws.{parse_endpoint_payload-to_json, Carried}
use nexustal.Http.Filter.Laws.{do_filter-passed, Identified}
use nexustal.Storage.Users.{user_repository, is_taken}
use nexustal.Services.Wizard.{new_admin, WizardService}
use nexustal.Http.Payloads.{text_at, endpoint_to_json, to_json_value, parse_endpoint_payload}
use nexustal.Domain.Ports.{PasswordHasher, TokenClaims}
use nexustal.Http.Wizard.{create_admin_route, read_credentials}
use nexustal.Tests.Data.{plain, office, shop, notice, first, bob, alice}
use nexustal.Services.Invitations.{InvitationService}
use nexustal.Http.{outcome, get_header, JsonCpp, Request}
use nexustal.Domain.Wizard.{AdminCredentials}
use nexustal.Http.Filter.{
  passed, identified, guarded, do_filter, bearer_token, resolve_role, JwtAuthFilter,
}
use nexustal.Domain.Endpoint.{of_websocket, websocket, Endpoint}
use nexustal.Domain.Json.{
  number, end, member, empty_array, boolean, array, Members, string, null, empty_object, object,
  JsonLib, Json, get as get_member,
}
use nexustal.Storage.Columns.{characters}
use nexustal.Common.{
  ◌≤◌, find_if, find_if-holds, find_if-All, ℕ, ◌+◌, ◌≡◌, refl, ◌≢◌, Bool, true, false, ◌&&◌, Option,
  none, some, [], ◌∷◌, arith, if◌then◌else◌, is_some, Text, lit, ◌==◌, is_empty, any, lookup,
  Action,
}

-- A library that prints the empty object, the empty array and null.
abbrev print : Json → Text
print null = lit "null"
print (object _) = lit "{}"
print (array _) = lit "[]"
print (boolean _) = lit "null"
print (number _) = lit "null"
print (string _) = lit "null"

abbrev printing : JsonLib
printing = record library { dump = print }

read_printed : Text → Option Json
read_printed text =
    if text == lit "{}"
    then some empty_object
    else if text == lit "[]"
    then some empty_array
    else some null

or_null : Option Json → Json
or_null none = null
or_null (some v) = v

members_at : Json → Text → Option Json
unfolding or_null
members_at (object m) k = some (or_null (get_member k m))
members_at null k = some null
members_at (boolean _) k = none
members_at (number _) k = none
members_at (string _) k = none
members_at (array _) k = none

text_in : Json → Option Text
text_in (string t) = some t
text_in null = some []
text_in (object m) = none
text_in (boolean _) = none
text_in (number _) = none
text_in (array _) = none

has_member : Json → Text → Option Bool
has_member (object m) k = some (is_some (get_member k m))
has_member null k = some false
has_member (boolean _) k = none
has_member (number _) k = none
has_member (string _) k = none
has_member (array _) k = none

members_at-present :
    (k : Text) (v : Json) (m : Members) → get_member k m ≡ some v → members_at (object m) k ≡ some v
unfolding members_at or_null
members_at-present k v m h = rw h refl

pub cpp : JsonCpp
unfolding members_at has_member read_printed text_in
cpp = record {
  member = members_at;
  is_member = has_member;
  as_string = text_in;
  as_int = λ v. none;
  to_nlohmann = λ v. some v;
  read = read_printed;
  member_present = members_at-present;
  is_member_object = λ k m. refl;
  as_string_string = λ t. refl;
}

-- A token is the name of its user, and bob's is revoked.
abbrev named_by : Text → Action ℕ (Option TokenClaims)
named_by token s = (
  if token == bob then none else some (record { user_id = token; token_version = lit "1" }),
  s + 1,
)

abbrev pub filter : JwtAuthFilter ℕ
filter = record { validate = some named_by; users = none; cache = none }

-- Alice's token, with a header that claims to be bob, an administrator.
abbrev pub forged : Request
forged = record {
  headers =
      (lit "authorization", lit "Bearer a")
      ∷ (lit "x-user-id", bob)
      ∷ (lit "x-user-role", lit "admin")
      ∷ [];
  json = none;
}

alice_token : bearer_token (get_header (lit "authorization") forged) ≡ some alice
unfolding bearer_token get_header lookup lit ◌==◌
alice_token = refl

alice_claims : (named_by alice 0).0 ≡ some (record { user_id = alice; token_version = lit "1" })
unfolding ◌==◌
alice_claims = refl

abbrev pub alice_admitted : Request
alice_admitted =
    identified library filter (record { user_id = alice; token_version = lit "1" }) (lit "viewer")
      forged

pub alice_passes : (do_filter library filter forged 0).0 ≡ passed alice_admitted
unfolding do_filter bearer_token get_header lookup lit ◌==◌ resolve_role
alice_passes = refl

do_filter-passed_example : Identified library filter forged 0 alice_admitted
do_filter-passed_example = do_filter-passed library filter forged alice_admitted 0 alice_passes

abbrev nobody_known : InvitationService ℕ
nobody_known = record {
  users = record {
    find_by_username = λ name s. (none, s);
    find_by_id = λ id s. (none, s);
    search = λ criteria s. ([], s);
    create = λ user s. (none, s);
    update = λ user s. (false, s);
  };
  teams = none;
  projects = none;
  invitations = record {
    create = λ invitation s. ([], s);
    find_pending_for_user = λ id s. ([], s);
    update_status = λ id status s. (false, s);
  };
  notifications = none;
}

alice_role : (resolve_role library filter alice 1).0 ≢ lit "admin"
unfolding resolve_role lit
alice_role h = ground arith

guarded-send-forbidden_example :
    guarded library filter (send library cpp (some nobody_known) first notice 7) forged 0
    ≡ (some (forbidden library), (resolve_role library filter alice 1).1)
guarded-send-forbidden_example =
    guarded-send-forbidden library cpp filter nobody_known first notice 7 forged 0 named_by alice
      (record { user_id = alice; token_version = lit "1" }) refl alice_token alice_claims alice_role

abbrev chat : Endpoint
chat = record {
  id = first;
  project_id = shop;
  name = empty_object;
  description = null;
  kind = websocket;
  status = lit "draft";
  created_by = alice;
  created_at = 3;
  updated_at = 5;
  details =
      of_websocket
        (record { connection_url = lit "ws://h"; protocols = []; sample_messages = empty_array });
  tag_ids = [];
}

object-Carried : Carried printing cpp empty_object
unfolding to_json_value cpp read_printed lit ◌==◌
object-Carried = refl

null-Carried : Carried printing cpp null
unfolding to_json_value cpp read_printed lit ◌==◌
null-Carried = refl

array-Carried : Carried printing cpp empty_array
unfolding to_json_value cpp read_printed lit ◌==◌
array-Carried = refl

no_protocols : Carried printing cpp (printing.of_texts [])
unfolding to_json_value cpp read_printed lit ◌==◌
no_protocols = rw of_texts-nil refl

parse_endpoint_payload-to_json_example :
    parse_endpoint_payload printing cpp (endpoint_to_json printing cpp chat) shop bob
    ≡ some (record chat { id = []; created_by = bob; created_at = 0; updated_at = 0 })
parse_endpoint_payload-to_json_example =
    parse_endpoint_payload-to_json printing cpp chat shop bob refl object-Carried null-Carried
      (no_protocols, array-Carried)

abbrev carol : AdminCredentials
carol = record { username = lit "carol"; password = lit "secret" }

abbrev carol_sent : Json
carol_sent = object (
    member (lit "username") (string (lit "carol"))
      (member (lit "password") (string (lit "secret")) end))

carol_read : read_credentials library cpp carol_sent ≡ some carol
unfolding read_credentials text_at cpp members_at or_null get_member lit ◌==◌ text_in
carol_read = refl

abbrev hashing : PasswordHasher
hashing = record { hash = λ p. p; verify = λ p h. p == h }

abbrev finished : WizardService
finished = record {
  configured_database =
      some
        (record { host = lit "h"; port = 5432; dbname = lit "d"; user = lit "u"; password = [] });
  company_profile = some (record { name = lit "c"; activity_scope = []; installation_id = [] });
  admin_created = true;
}

carol_named : is_empty carol.username ≡ false
unfolding lit
carol_named = refl

carol_secret : is_empty carol.password ≡ false
unfolding lit
carol_secret = refl

carol_short : characters carol.username ≤ 120
unfolding characters lit
carol_short = omega arith

carol_hash_short : characters (hashing.hash carol.password) ≤ 255
unfolding characters lit
carol_hash_short = omega arith

carol_new : is_taken (new_admin hashing first notice 9 carol) office.users ≡ false
unfolding ◌==◌ lit
carol_new = refl

create_admin_route-open_example :
    ((create_admin_route library cpp
        (user_repository plain [] [])
        hashing
        first
        notice
        9
        (record { headers = []; json = some carol_sent })
        (finished, answering office)).0
      ≡ some (outcome library 400 true))
    × (any
          (λ u. u.username == carol.username && (u.is_admin && u.is_active))
          (create_admin_route library cpp
            (user_repository plain [] [])
            hashing
            first
            notice
            9
            (record { headers = []; json = some carol_sent })
            (finished, answering office)).1.1.tables.users
        ≡ true)
create_admin_route-open_example =
    create_admin_route-open library cpp plain hashing first notice 9 carol carol_sent finished
      office carol_read carol_named carol_secret refl refl carol_short carol_hash_short carol_new

abbrev same_method : Method → Method → Bool
same_method on_get on_get = true
same_method on_post on_post = true
same_method on_put on_put = true
same_method on_delete on_delete = true
same_method _ _ = false

-- A server that takes the first route with the very path.
abbrev serves_path : RouteEntry → Method → Text → Bool
serves_path entry method path = same_method entry.method method && entry.pattern == path

abbrev exact : Router
exact = record {
  serves = serves_path;
  choose = λ entries method path. find_if (λ e. serves_path e method path) entries;
  choose-serves =
      λ entries method path entry h. find_if-holds (λ e. serves_path e method path) entries entry h;
  choose-All = λ holds entries method path entry h all.
      find_if-All (λ e. holds e ≡ true) (λ e. serves_path e method path) entries all h;
}

abbrev no_headers : Request
no_headers = record { headers = []; json = none }
