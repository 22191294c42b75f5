-- ===== src/Services/Roles/Keys.antt =====
-- The keys of the role cache.
use nexustal.Domain.Identity.{Uuid}
use nexustal.Services.Roles.{cache_key_for}
use nexustal.Common.{
  ◌∙◌, drop-zero, sym, ◌≡◌, refl, ap, false, [], ◌∷◌, ◌++◌, arith, eqb, Text, lit, drop, any,
}

-- No colon in a text.
abbrev pub IsColonless : Text → Type 0
IsColonless t = any (eqb b':') t ≡ false

split_at_colon :
    (p q u v : Text)
    → IsColonless p
    → IsColonless q
    → p ++ (b':' ∷ u) ≡ q ++ (b':' ∷ v)
    → (p ≡ q) × (u ≡ v)
split_at_colon [] [] u v hp hq e = (refl, ground arith)
split_at_colon [] (y ∷ q) u v hp hq e = absurd (ground arith)
split_at_colon (x ∷ p) [] u v hp hq e = absurd (ground arith)
split_at_colon (x ∷ p) (y ∷ q) u v hp hq e =
    let both = split_at_colon p q u v (ground arith) (ground arith) (ground arith) in
    (ground (arith, both), both.1)

-- Two users or projects never share an entry of the role cache: where no project's identifier has a
-- colon, as no UUID has one, equal keys stand for the same user in the same project.
pub cache_key_for_injective :
    (user_id project_id other_user other_project : Uuid)
    → IsColonless project_id
    → IsColonless other_project
    → cache_key_for user_id project_id ≡ cache_key_for other_user other_project
    → (project_id ≡ other_project) × (user_id ≡ other_user)
unfolding cache_key_for lit
cache_key_for_injective user_id project_id other_user other_project h k e =
    split_at_colon project_id other_project user_id other_user h k
      (sym (drop-zero _) ∙ ap (λ t. drop t 13) e ∙ drop-zero _)
