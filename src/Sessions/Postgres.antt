-- ===== src/Sessions/Postgres.antt =====
-- The token service over backend/infrastructure/adapters/postgres_user_repository.cpp, while the
-- server answers, and a Redis that may lose commands.
use nexustal.Sessions.Revocation.{Versions, replaced, version_of}
use nexustal.Sessions.Tokens.{JwtLib, JwtTokenService, cache_key_for, cache_ttl_seconds}
use nexustal.Storage.{Database, Tables, exec}
use nexustal.Storage.Columns.{varchar}
use nexustal.Storage.Details.Laws.{answering}
use nexustal.Storage.Users.{
  Collation, user_repository, fitted_user, set_user, set_fitted, update_user, find_user_by_id,
  overwrite,
}
use nexustal.Storage.Members.{affected}
use nexustal.Domain.Identity.{User, Uuid}
use nexustal.Domain.Ports.{Cache, UserRepository}
use mathlib.Core.Option
use nexustal.Common.{
  ℕ, ◌≡◌, refl, sym, ap, ◌∙◌, ◌⊎◌, inl, inr, true, false, ◌&&◌, Option, none, some, List, [], ◌∷◌,
  arith, ltb, if◌then◌else◌, Option-cases, Text, lit, ◌==◌, eq_iff, find_if, find_if-holds,
  update_where, count_if, Action,
}

-- A cache whose `GET` reads the entries, and whose other commands change the entry of their key or
-- nothing.
pub record Redis (R : Type 0) : Type 0 where
  pub cache : Cache R
  pub entries : R → Text → Option Text
  pub read_entries : (key : Text) (r : R) → cache.read key r ≡ (entries r key, r)
  pub setex_entries :
      (key : Text) (seconds : ℕ) (value : Text) (r : R) (k : Text)
      → (entries (cache.setex key seconds value r).1 k ≡ entries r k)
        ⊎ ((key ≡ k) × (entries (cache.setex key seconds value r).1 k ≡ some value))
  pub delete_entries :
      (key : Text) (r : R) (k : Text)
      → (entries (cache.delete key r).1 k ≡ entries r k)
        ⊎ ((key ≡ k) × (entries (cache.delete key r).1 k ≡ none))

-- The cache and the tables beside each other.
abbrev pub on_tables : {R A : Type 0} → Action Database A → Action (Tables × R) A
on_tables f (t, r) = let (a, db) = f (answering t) in (a, (db.tables, r))

abbrev pub on_cache : {R A : Type 0} → Action R A → Action (Tables × R) A
on_cache f (t, r) = let (a, r') = f r in (a, (t, r'))

abbrev pub users_beside : {R : Type 0} → UserRepository Database → UserRepository (Tables × R)
users_beside users = record {
  find_by_username = λ name. on_tables (users.find_by_username name);
  find_by_id = λ id. on_tables (users.find_by_id id);
  search = λ criteria. on_tables (users.search criteria);
  create = λ user. on_tables (users.create user);
  update = λ user. on_tables (users.update user);
}

abbrev pub cache_beside : {R : Type 0} → Cache R → Cache (Tables × R)
cache_beside cache = record {
  read = λ key. on_cache (cache.read key);
  setex = λ key seconds value. on_cache (cache.setex key seconds value);
  delete = λ key. on_cache (cache.delete key);
}

abbrev pub stored_in : Tables → Uuid → Option Uuid
stored_in t id = Option.map version_of (find_if (λ u. u.id == id) t.users)

cache_key_for_injective : (id j : Uuid) → cache_key_for id ≡ cache_key_for j → id ≡ j
unfolding cache_key_for lit
cache_key_for_injective id j h = ground (arith, h)

-- An update of the rows of an identifier replaces the version that is found under it.
overwritten :
    (user : User) (us : List User) (j : Uuid)
    → Option.map version_of
        (find_if (λ u. u.id == j) (update_where (λ u. u.id == user.id) (overwrite user) us))
      ≡ (if user.id == j
          then replaced user.token_version (Option.map version_of (find_if (λ u. u.id == j) us))
          else Option.map version_of (find_if (λ u. u.id == j) us))
overwritten user [] j = ground arith
overwritten user (u ∷ us) j =
    ground (arith, overwritten user us j, eq_iff u.id user.id, eq_iff user.id j, eq_iff u.id j)

unmatched :
    (user : User) (us : List User) (j : Uuid)
    → ltb 0 (count_if (λ u. u.id == user.id) us) ≡ false
    → (user.id == j) ≡ true
    → find_if (λ u. u.id == j) us ≡ none
unmatched user [] j h e = refl
unmatched user (u ∷ us) j h e =
    ground (arith, h, e, eq_iff user.id j, unmatched user us j, eq_iff u.id user.id)

set_fitted-stored :
    (user : User) (t : Tables) (j : Uuid)
    → let (result, db) = exec (set_fitted (some user)) (answering t) in
      stored_in db.tables j ≡ (
        if affected result && user.id == j
        then replaced user.token_version (stored_in t j)
        else stored_in t j)
unfolding exec
set_fitted-stored user t j = ground (arith, overwritten user t.users j, unmatched user t.users j)

pub update_user-stored :
    (user : User) (t : Tables) (j : Uuid)
    → stored_in (update_user user (answering t)).1.tables j ≡ (
        if (update_user user (answering t)).0 && user.id == j
        then replaced user.token_version (stored_in t j)
        else stored_in t j)
unfolding update_user set_user fitted_user exec
update_user-stored user t j = elim (Option-cases (varchar 120 user.username)) [
  | inl refused ↦ rw refused refl
  | inr (name, named) ↦ elim (Option-cases (varchar 255 user.password_hash)) [
    | inl refused ↦ rw (named, refused) refl
    | inr (hash, hashed) ↦
        rw (named, hashed)
          (set_fitted-stored (record user { username = name; password_hash = hash }) t j)
  ]
]

-- The service over the tables and a Redis; with no Redis the client is missing.
abbrev pub beside :
    {R : Type 0} → Collation → Option JwtLib → Text → Redis R → JwtTokenService (Tables × R)
beside collation jwt secret redis = record {
  jwt = jwt;
  secret = secret;
  cache = some (cache_beside redis.cache);
  users = users_beside (user_repository collation [] []);
}

pub find_user_by_id-answering :
    (id : Uuid) (t : Tables)
    → find_user_by_id id (answering t) ≡ (find_if (λ u. u.id == id) t.users, answering t)
unfolding find_user_by_id exec
find_user_by_id-answering id t = refl

pub found_key :
    (id : Uuid) (t : Tables) (user : User)
    → (find_user_by_id id (answering t)).0 ≡ some user
    → user.id ≡ id
found_key id t user h = (eq_iff user.id id).0 (
    find_if-holds (λ u. u.id == id) t.users user
      (sym (ap (λ r. r.0) (find_user_by_id-answering id t)) ∙ h))

module _ {R : Type 0} (redis : Redis R) where
  abbrev pub held_in : Tables × R → Uuid → Option Uuid
  held_in w id = redis.entries w.1 (cache_key_for id)

  pub read_beside :
      (id : Uuid) (w : Tables × R)
      → (cache_beside redis.cache).read (cache_key_for id) w ≡ (held_in w id, w)
  read_beside id (t, r) = ap (λ x. (x.0, (t, x.1))) (redis.read_entries (cache_key_for id) r)

  pub setex_held :
      (id version : Uuid) (seconds : ℕ) (w : Tables × R) (j : Uuid)
      → let after = ((cache_beside redis.cache).setex (cache_key_for id) seconds version w).1 in
        (held_in after j ≡ held_in w j) ⊎ ((id ≡ j) × (held_in after j ≡ some version))
  setex_held id version seconds (t, r) j =
      elim (redis.setex_entries (cache_key_for id) seconds version r (cache_key_for j)) [
        | inl same ↦ inl same
        | inr (key, new) ↦ inr (cache_key_for_injective id j key, new)
      ]

  pub delete_held :
      (id : Uuid) (w : Tables × R) (j : Uuid)
      → let after = ((cache_beside redis.cache).delete (cache_key_for id) w).1 in
        (held_in after j ≡ held_in w j) ⊎ ((id ≡ j) × (held_in after j ≡ none))
  delete_held id (t, r) j = elim (redis.delete_entries (cache_key_for id) r (cache_key_for j)) [
    | inl same ↦ inl same
    | inr (key, new) ↦ inr (cache_key_for_injective id j key, new)
  ]

-- The laws on the versions hold of the tables and such a Redis.
abbrev pub postgres_versions :
    {R : Type 0} (collation : Collation) (jwt : Option JwtLib) (secret : Text) (redis : Redis R)
    → Versions (Tables × R) (beside collation jwt secret redis)
postgres_versions collation jwt secret redis = record {
  stored = λ w id. stored_in w.0 id;
  held = λ w id. redis.entries w.1 (cache_key_for id);
  cache_read = λ id w. read_beside redis id w;
  find_stored = λ id w. ap (λ r. Option.map version_of r.0) (find_user_by_id-answering id w.0);
  find_by_key = λ id w user h. found_key id w.0 user h;
  find_keeps =
      λ id w j. (ap (λ r. stored_in r.1.tables j) (find_user_by_id-answering id w.0), refl);
  update_stored = λ user w j. (update_user-stored user w.0 j, refl);
  remember_held = λ id version w j. (refl, setex_held redis id version cache_ttl_seconds w j);
  forget_held = λ id w j. (refl, delete_held redis id w j);
}
