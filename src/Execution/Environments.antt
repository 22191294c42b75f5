-- ===== src/Execution/Environments.antt =====
-- backend/infrastructure/adapters/environment_cache.cpp. Reads of the cache that throw, and entries
-- that cannot be read back, fall through to the repository.
pub mod Laws
use nexustal.Domain.Ports.{EnvironmentRepository, Cache}
use nexustal.Domain.Environment.{variables_to_json, Variable, Environment, variables_from_json}
use nexustal.Domain.Json.{object_of, end, string, object, empty_array, Members, Json, JsonLib}
use nexustal.Domain.Identity.{Uuid}
use nexustal.Common.{
  ◌>>?◌, ℕ, zero, suc, ◌+◌, ◌-◌, ◌*◌, ◌/◌, ◌%◌, ◌^◌, ◌≤◌, ◌<◌, String, ◌≡◌, refl, sym, ap, ◌∙◌,
  subst, ◌≢◌, ◌↔◌, ◌⊎◌, inl, inr, Bool, true, false, not, ◌&&◌, ◌||◌, Option, none, some, List, [],
  ◌∷◌, ◌++◌, append_assoc, append-nil, arith, ltb, leb, eqb, if◌then◌else◌, Bool-cases,
  Option-cases, is_some, Text, lit, ◌==◌, is_empty, eq_iff, eq_refl, ==-false, length,
  length-append, find_if, get_elem?, modify, take-length, drop-length, take, drop, drop-zero,
  take-append, drop-append, update_where, count_if, count_if-pos, find_if-any, find_if-holds,
  insert_desc, order_desc, any-insert_desc, any-order_desc, All-insert_desc, All-order_desc,
  find_if-All, any-select, any-false, any_mono, any-append, All-append, All-select_self,
  find_if_unique, any, select, All, All-select, Dict, lookup, put, without, lookup-put,
  lookup-without, Action, ◌>>=◌, ◌>>◌, pure,
}

unfoldable pub parse_value : JsonLib → Text → Json
parse_value lib raw = elim (lib.parse raw) [ none ↦ string raw | some v ↦ v ]

abbrev pub environment_members : JsonLib → Environment → Dict Json
environment_members lib environment =
    (lit "id", string environment.id)
    ∷ (lit "project_id", string environment.project_id)
    ∷ (lit "created_by", string environment.created_by)
    ∷ (lit "name", string environment.name)
    ∷ (lit "variables", variables_to_json lib environment.variables)
    ∷ []

unfoldable pub environment_to_json : JsonLib → Environment → Json
environment_to_json lib environment = object (object_of lib (environment_members lib environment))

-- Nothing where a read throws; the times are those of a default time point.
unfoldable pub environment_from_json : JsonLib → Json → Option Environment
unfolding variables_from_json
environment_from_json lib json = lib.text_value json (lit "id") [] >>? λ id.
    lib.text_value json (lit "project_id") [] >>? λ project_id.
    lib.text_value json (lit "created_by") [] >>? λ created_by.
    lib.text_value json (lit "name") [] >>? λ name.
    lib.json_value json (lit "variables") empty_array >>? λ listed.
    variables_from_json lib listed >>? λ variables. some (record {
      id = id;
      project_id = project_id;
      created_by = created_by;
      name = name;
      variables = variables;
      created_at = 0;
      updated_at = 0;
    })

abbrev pub ttl_seconds : ℕ
ttl_seconds = 600

unfoldable pub cache_key_for : Uuid → Text
cache_key_for env_id = lit "environment:" ++ env_id

pub record EnvironmentCache (S : Type 0) : Type 0 where
  pub redis : Option (Cache S)
  pub repository : Option (EnvironmentRepository S)

-- What a reply of the cache holds.
abbrev pub decoded : JsonLib → Option Text → Option Environment
decoded lib none = none
decoded lib (some encoded) =
    if is_empty encoded then none else lib.parse encoded >>? λ json. environment_from_json lib json

-- `resolved[variable.key] = parseValue(variable.value)` for each variable.
unfoldable pub fill : JsonLib → Members → List Variable → Members
unfolding parse_value
fill lib resolved [] = resolved
fill lib resolved (variable ∷ variables) =
    fill lib (lib.put variable.key (parse_value lib variable.value) resolved) variables

module _ {S : Type 0} (lib : JsonLib) (service : EnvironmentCache S) where
  open service use {redis, repository}

  unfoldable pub set : Environment → Action S (Unit {0})
  unfolding environment_to_json
  set env = elim redis [
    | none ↦ pure tt
    | some cache ↦
        cache.setex (cache_key_for env.id) ttl_seconds (lib.dump (environment_to_json lib env))
  ]

  unfoldable pub invalidate : Uuid → Action S (Unit {0})
  invalidate env_id = elim redis [
    | none ↦ pure tt
    | some cache ↦ cache.delete (cache_key_for env_id)
  ]

  abbrev pub read_entry : Uuid → Action S (Option Text)
  read_entry env_id = elim redis [
    | none ↦ pure none
    | some cache ↦ cache.read (cache_key_for env_id)
  ]

  abbrev pub store_found : Option Environment → Action S (Option Environment)
  store_found none = pure none
  store_found (some environment) = do set environment; pure (some environment)

  unfoldable pub fetch : Uuid → Action S (Option Environment)
  fetch env_id = elim repository [
    | none ↦ pure none
    | some rows ↦ do environment ← rows.find_by_id env_id; store_found environment
  ]

  unfoldable pub get_environment : Uuid → Action S (Option Environment)
  unfolding fetch
  get_environment env_id = do
    reply ← read_entry env_id
    elim (decoded lib reply) [ some environment ↦ pure (some environment) | none ↦ fetch env_id ]

  abbrev pub fill_found : Members → Option Environment → Json
  fill_found resolved none = object resolved
  fill_found resolved (some environment) = object (fill lib resolved environment.variables)

  unfoldable pub resolve_variables : Uuid → Option Uuid → Action S Json
  unfolding get_environment fill
  resolve_variables project_id env_id = elim repository [
    | none ↦ pure (object end)
    | some rows ↦ do
      globals ← rows.get_global_variables project_id
      let resolved = fill lib end globals.variables
      elim env_id [
        | none ↦ pure (object resolved)
        | some id ↦ do environment ← get_environment id; pure (fill_found resolved environment)
      ]
  ]
