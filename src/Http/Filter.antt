-- ===== src/Http/Filter.antt =====
-- backend/src/filters/jwt_auth_filter.cpp, and the routes that it guards.
pub mod Laws
use nexustal.Http.{get_header, error, add_header, Response, Request}
use nexustal.Domain.Json.{JsonLib}
use nexustal.Domain.Ports.{UserRepository, TokenClaims, Cache}
use nexustal.Domain.Identity.{User, Uuid}
use nexustal.Common.{
  ℕ, zero, suc, ◌+◌, ◌-◌, ◌*◌, ◌/◌, ◌%◌, ◌^◌, ◌≤◌, ◌<◌, String, ◌≡◌, refl, sym, ap, ◌∙◌, subst, ◌≢◌,
  ◌↔◌, ◌⊎◌, inl, inr, Bool, true, false, not, ◌&&◌, ◌||◌, Option, none, some, List, [], ◌∷◌, ◌++◌,
  append_assoc, append-nil, arith, ltb, leb, eqb, if◌then◌else◌, Bool-cases, Option-cases, is_some,
  Text, lit, ◌==◌, is_empty, eq_iff, eq_refl, ==-false, length, length-append, find_if, get_elem?,
  modify, take-length, drop-length, take, drop, drop-zero, take-append, drop-append, update_where,
  count_if, count_if-pos, find_if-any, find_if-holds, insert_desc, order_desc, any-insert_desc,
  any-order_desc, All-insert_desc, All-order_desc, find_if-All, any-select, any-false, any_mono,
  any-append, All-append, All-select_self, find_if_unique, any, select, All, All-select, Dict,
  lookup, put, without, lookup-put, lookup-without, Action, ◌>>=◌, ◌>>◌, pure,
}

-- What the filter is configured with; `validate` is `validateAccessToken` of the service.
pub record JwtAuthFilter (S : Type 0) : Type 0 where
  pub validate : Option (Text → Action S (Option TokenClaims))
  pub users : Option (UserRepository S)
  pub cache : Option (Cache S)

unfoldable pub role_cache_key : Uuid → Text
role_cache_key user_id = lit "user_role:" ++ user_id

abbrev pub role_ttl_seconds : ℕ
role_ttl_seconds = 3600

-- A reply that is not empty.
abbrev kept_role : Option Text → Option Text
kept_role none = none
kept_role (some role) = if is_empty role then none else some role

abbrev read_role : {S : Type 0} → Option (Cache S) → Uuid → Action S (Option Text)
read_role none user_id = pure none
read_role (some cache) user_id = do
  reply ← cache.read (role_cache_key user_id)
  pure (kept_role reply)

abbrev write_role : {S : Type 0} → Option (Cache S) → Uuid → Text → Action S (Unit {0})
write_role none user_id role = pure tt
write_role (some cache) user_id role = cache.setex (role_cache_key user_id) role_ttl_seconds role

abbrev stored_role : Option User → Text
stored_role none = lit "viewer"
stored_role (some user) = if user.is_admin then lit "admin" else lit "viewer"

-- `rfind("Bearer ", 0) == 0` and `substr(7)`
unfoldable pub bearer_token : Text → Option Text
bearer_token authorization =
    if take authorization 7 == lit "Bearer " then some (drop authorization 7) else none

-- The request goes on, or is answered.
pub data Verdict : Type 0 where
  passed : Request → Verdict
  failed : Response → Verdict

module _ {S : Type 0} (lib : JsonLib) (filter : JwtAuthFilter S) where
  open filter use {validate, users, cache}

  unfoldable pub resolve_role : Uuid → Action S Text
  resolve_role user_id = do
    cached ← read_role cache user_id
    elim cached [
      | some role ↦ pure role
      | none ↦ elim users [
        | none ↦ pure (lit "viewer")
        | some repository ↦ do
          user ← repository.find_by_id user_id
          write_role cache user_id (stored_role user)
          pure (stored_role user)
      ]
    ]

  abbrev pub identified : TokenClaims → Text → Request → Request
  identified claims role request = add_header (lit "x-user-role") role (
      add_header (lit "x-token-version") claims.token_version
        (add_header (lit "x-user-id") claims.user_id request))

  abbrev pub missing_token : Verdict
  missing_token = failed (error lib 401 (lit "missing bearer token"))

  abbrev pub invalid_token : Verdict
  invalid_token = failed (error lib 401 (lit "invalid token"))

  abbrev pub admit : Request → Option TokenClaims → Action S Verdict
  admit request none = pure invalid_token
  admit request (some claims) = do
    role ← resolve_role claims.user_id
    pure (passed (identified claims role request))

  abbrev pub check_token :
      (Text → Action S (Option TokenClaims)) → Request → Option Text → Action S Verdict
  check_token validate request none = pure missing_token
  check_token validate request (some token) = do claims ← validate token; admit request claims

  abbrev pub filter_with :
      Option (Text → Action S (Option TokenClaims)) → Request → Action S Verdict
  filter_with none request =
      pure (failed (error lib 503 (lit "authentication service is not configured")))
  filter_with (some validate) request =
      check_token validate request (bearer_token (get_header (lit "authorization") request))

  unfoldable pub do_filter : Request → Action S Verdict
  do_filter request = filter_with validate request

  abbrev pub handled : (Request → Action S (Option Response)) → Verdict → Action S (Option Response)
  handled handler (failed response) = pure (some response)
  handled handler (passed request) = handler request

  -- A route with the filter; nothing stands for an exception of the handler.
  unfoldable pub guarded :
      (Request → Action S (Option Response)) → Request → Action S (Option Response)
  guarded handler request = do verdict ← do_filter request; handled handler verdict
