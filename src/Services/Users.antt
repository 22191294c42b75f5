-- ===== src/Services/Users.antt =====
-- The use cases of backend/application/identity_use_cases.hpp.
pub mod Creation
use nexustal.Domain.Ports.{UserRepository}
use nexustal.Domain.Identity.{UserSearchCriteria, User, Uuid}
use nexustal.Common.{
  ℕ, zero, suc, ◌+◌, ◌-◌, ◌*◌, ◌/◌, ◌%◌, ◌^◌, ◌≤◌, ◌<◌, String, ◌≡◌, refl, sym, ap, ◌∙◌, subst, ◌≢◌,
  ◌↔◌, ◌⊎◌, inl, inr, Bool, true, false, not, ◌&&◌, ◌||◌, Option, none, some, List, [], ◌∷◌, ◌++◌,
  append_assoc, append-nil, arith, ltb, leb, eqb, if◌then◌else◌, Bool-cases, Option-cases, is_some,
  Text, lit, ◌==◌, is_empty, eq_iff, eq_refl, ==-false, length, length-append, find_if, get_elem?,
  modify, take-length, drop-length, take, drop, drop-zero, take-append, drop-append, update_where,
  count_if, count_if-pos, find_if-any, find_if-holds, insert_desc, order_desc, any-insert_desc,
  any-order_desc, All-insert_desc, All-order_desc, find_if-All, any-select, any-false, any_mono,
  any-append, All-append, All-select_self, find_if_unique, any, select, All, All-select, Dict,
  lookup, put, without, lookup-put, lookup-without, Action, ◌>>=◌, ◌>>◌, pure,
}

pub record CreateUserResult : Type 0 where
  pub success : Bool
  pub message : Text
  pub created_user_id : Uuid

abbrev pub failure : Text → CreateUserResult
failure message = record { success = false; message = message; created_user_id = [] }

-- Nothing where `create` throws.
abbrev pub created_as : Option Uuid → Option CreateUserResult
created_as none = none
created_as (some id) =
    some (record { success = true; message = lit "user created"; created_user_id = id })

module _ {S : Type 0} (users : UserRepository S) where
  -- `CreateUserInteractor::execute`
  unfoldable pub create_user_checked : User → Action S (Option CreateUserResult)
  create_user_checked user =
      if is_empty user.username
      then pure (some (failure (lit "username is required")))
      else if is_empty user.password_hash
      then pure (some (failure (lit "password hash is required")))
      else do
        existing ← users.find_by_username user.username
        elim existing [
          | some _ ↦ pure (some (failure (lit "username already exists")))
          | none ↦ do created ← users.create user; pure (created_as created)
        ]

  -- `SearchUsersInteractor::execute`
  unfoldable pub search_users_by : UserSearchCriteria → Action S (List User)
  search_users_by criteria = users.search criteria
