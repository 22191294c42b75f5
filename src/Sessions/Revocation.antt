-- ===== src/Sessions/Revocation.antt =====
-- Which tokens are accepted, and how a rotation of the version revokes them. The repository and the
-- cache are taken behind an interface: the version that the repository stores of each user, and the
-- one that the cache holds.
use mathlib.Core.Option
use nexustal.Common.{
  ap, ◌∙◌, Bool, false, ◌≢◌, eq_refl, true, ◌≡◌, ◌⊎◌, inl, inr, ◌&&◌, Option, none, some, arith,
  if◌then◌else◌, Option-cases, Text, ◌==◌, eq_iff,
}
use nexustal.Domain.Identity.{Uuid, Timestamp, User}
use nexustal.Sessions.Tokens.{
  Payload, JwtTokenService, remember, forget, cached_version, fetch_current_version, verified,
  validate_access_token, rotate_version,
}

abbrev pub version_of : User → Uuid
version_of user = user.token_version

abbrev pub replaced : Uuid → Option Uuid → Option Uuid
replaced version none = none
replaced version (some _) = some version

-- Whether a version is known, and the given one.
abbrev pub names : Option Uuid → Uuid → Bool
names none version = false
names (some known) version = known == version

-- The laws suppose that the repository answers. A command to the cache may fail or be late: what is
-- written or deleted there may as well be left as it was.
pub record Versions (S : Type 0) (service : JwtTokenService S) : Type 0 where
  pub stored : S → Uuid → Option Uuid
  pub held : S → Uuid → Option Uuid
  pub cache_read : (id : Uuid) (w : S) → cached_version service.cache id w ≡ (held w id, w)
  pub find_stored :
      (id : Uuid) (w : S) → Option.map version_of (service.users.find_by_id id w).0 ≡ stored w id
  pub find_by_key :
      (id : Uuid) (w : S) (user : User)
      → (service.users.find_by_id id w).0 ≡ some user
      → user.id ≡ id
  pub find_keeps :
      (id : Uuid) (w : S) (j : Uuid)
      → (stored (service.users.find_by_id id w).1 j ≡ stored w j)
        × (held (service.users.find_by_id id w).1 j ≡ held w j)
  pub update_stored :
      (user : User) (w : S) (j : Uuid)
      → (stored (service.users.update user w).1 j ≡ (
          if (service.users.update user w).0 && user.id == j
          then replaced user.token_version (stored w j)
          else stored w j))
        × (held (service.users.update user w).1 j ≡ held w j)
  pub remember_held :
      (id version : Uuid) (w : S) (j : Uuid)
      → (stored (remember service.cache id version w).1 j ≡ stored w j)
        × ((held (remember service.cache id version w).1 j ≡ held w j)
            ⊎ ((id ≡ j) × (held (remember service.cache id version w).1 j ≡ some version)))
  pub forget_held :
      (id : Uuid) (w : S) (j : Uuid)
      → (stored (forget service.cache id w).1 j ≡ stored w j)
        × ((held (forget service.cache id w).1 j ≡ held w j)
            ⊎ ((id ≡ j) × (held (forget service.cache id w).1 j ≡ none)))

module _ {S : Type 0} {service : JwtTokenService S} (versions : Versions S service) where
  open versions use {stored, held}

  -- The cache holds no version but the stored one.
  unfoldable pub Coherent : S → Type 0
  Coherent w = (id v : Uuid) → held w id ≡ some v → stored w id ≡ some v

  pub fetch_current_version-stored :
      (id : Uuid) (w : S) → Coherent w → (fetch_current_version service id w).0 ≡ stored w id
  unfolding fetch_current_version Coherent
  fetch_current_version-stored id w c = elim (Option-cases (held w id)) [
    | inl missing ↦ ground (arith, missing, versions.cache_read id w, versions.find_stored id w)
    | inr (v, e) ↦ ground (arith, e, versions.cache_read id w, c id v e)
  ]

  -- While the repository answers and the cache is coherent, a token whose payload is genuine is
  -- accepted, as its subject's, if it carries the version that the repository stores of its
  -- subject, and is refused if it carries another or no version is stored.
  pub validate_access_token-stored :
      (now : Timestamp) (token : Text) (payload : Payload) (w : S)
      → Coherent w
      → verified service.jwt service.secret now token ≡ some payload
      → (validate_access_token service now token w).0 ≡ (
          if names (stored w payload.subject) payload.version
          then some (record { user_id = payload.subject; token_version = payload.version })
          else none)
  unfolding validate_access_token
  validate_access_token-stored now token payload w c e =
      ground (arith, e, fetch_current_version-stored payload.subject w c)

  rotate_version-fresh :
      (fresh id : Uuid) (w : S) (user : User)
      → (service.users.find_by_id id w).0 ≡ some user
      → (service.users.update
          (record user { token_version = fresh })
          (service.users.find_by_id id w).1).0
        ≡ true
      → stored (rotate_version service fresh id w).1 id ≡ some fresh
  unfolding rotate_version
  rotate_version-fresh fresh id w user found updated =
      let reading : S = (service.users.find_by_id id w).1 in
      let rotated : User = record user { token_version = fresh } in
      ground (
        arith,
        versions.find_by_key id w user found,
        versions.find_stored id w,
        versions.find_keeps id w id,
        versions.update_stored rotated reading id,
        versions.forget_held id (service.users.update rotated reading).1 id,
        eq_refl id,
      )

  rotate_version-forgets :
      (fresh id : Uuid) (w : S) (user : User)
      → ((x : S) → held (forget service.cache id x).1 id ≡ none)
      → (service.users.find_by_id id w).0 ≡ some user
      → (service.users.update
          (record user { token_version = fresh })
          (service.users.find_by_id id w).1).0
        ≡ true
      → held (rotate_version service fresh id w).1 id ≡ none
  unfolding rotate_version
  rotate_version-forgets fresh id w user deleted found updated =
      let rotated : User = record user { token_version = fresh } in
      ground (
        arith,
        found,
        updated,
        deleted (service.users.update rotated (service.users.find_by_id id w).1).1,
      )

  -- What decides after a new version has been stored: the cache, if it holds a version.
  decided :
      (fresh id : Uuid) (token : Text) (now : Timestamp) (payload : Payload) (v : S)
      → verified service.jwt service.secret now token ≡ some payload
      → payload.subject ≡ id
      → payload.version ≢ fresh
      → stored v id ≡ some fresh
      → (validate_access_token service now token v).0 ≡ (
          if names (held v id) payload.version
          then some (record { user_id = id; token_version = payload.version })
          else none)
  unfolding validate_access_token fetch_current_version
  decided fresh id token now payload v genuine subject old new = elim (Option-cases (held v id)) [
    | inl missing ↦ ground (
      arith,
      missing,
      versions.cache_read payload.subject v,
      versions.find_stored payload.subject v,
      eq_iff fresh payload.version,
    )
    | inr (known, there) ↦ ground (arith, there, versions.cache_read payload.subject v)
  ]

  -- After a rotation the cache decides: once the repository has stored the new version of a user
  -- that it finds, a token of that user under another version, which the library verifies, is
  -- accepted exactly if the cache holds that other version. So the old token stays accepted where
  -- the deletion of the cached version, which is not waited for, has failed or is late. The
  -- statement is about the state that the rotation leaves, with a repository that answers.
  pub rotate_version-unless_held :
      (fresh id : Uuid) (w : S) (user : User) (now : Timestamp) (token : Text) (payload : Payload)
      → (service.users.find_by_id id w).0 ≡ some user
      → (service.users.update
          (record user { token_version = fresh })
          (service.users.find_by_id id w).1).0
        ≡ true
      → verified service.jwt service.secret now token ≡ some payload
      → payload.subject ≡ id
      → payload.version ≢ fresh
      → let v = (rotate_version service fresh id w).1 in
        (validate_access_token service now token v).0 ≡ (
          if names (held v id) payload.version
          then some (record { user_id = id; token_version = payload.version })
          else none)
  rotate_version-unless_held fresh id w user now token payload found updated genuine subject old =
      decided fresh id token now payload (rotate_version service fresh id w).1 genuine subject old
        (rotate_version-fresh fresh id w user found updated)

  -- A rotation revokes: once the repository has stored the new version of a user that it finds, no
  -- token of that user under another version is accepted in the state that the rotation leaves, at
  -- any time. The repository answers, and the deletion of the cached version, which the code does
  -- not wait for, takes effect.
  pub rotate_version-revokes :
      (fresh id : Uuid) (w : S) (user : User) (now : Timestamp) (token : Text) (payload : Payload)
      → ((x : S) → held (forget service.cache id x).1 id ≡ none)
      → (service.users.find_by_id id w).0 ≡ some user
      → (service.users.update
          (record user { token_version = fresh })
          (service.users.find_by_id id w).1).0
        ≡ true
      → verified service.jwt service.secret now token ≡ some payload
      → payload.subject ≡ id
      → payload.version ≢ fresh
      → (validate_access_token service now token (rotate_version service fresh id w).1).0 ≡ none
  rotate_version-revokes fresh id w user now token payload deleted found updated genuine subject
        old =
      let left : held (rotate_version service fresh id w).1 id ≡ none =
        rotate_version-forgets fresh id w user deleted found updated in
      rotate_version-unless_held fresh id w user now token payload found updated genuine subject old
      ∙ ap
          (λ o.
            if names o payload.version
            then some (record { user_id = id; token_version = payload.version })
            else none)
          left
