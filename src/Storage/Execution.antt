-- ===== src/Storage/Execution.antt =====
-- What a statement can come to.
use nexustal.Common.{◌≡◌, refl, ◌⊎◌, inl, inr, Bool, true, false, Option, none, some, List, [], ◌∷◌}
use nexustal.Storage.{Tables, Database, Statement, exec, committed}

-- It throws and leaves the tables, or it gives its result and its tables.
abbrev pub Executed : {A : Type 0} → Statement A → Database → Option A × Database → Type 0
Executed {A} statement db r =
    ((r.0 ≡ none) × (r.1.tables ≡ db.tables))
    ⊎ ((a : A) × (t : Tables) × (statement db.tables ≡ some (a, t))
        × (r.0 ≡ some a)
        × (r.1.tables ≡ t))

committed-Executed :
    {A : Type 0} (statement : Statement A) (db : Database) (o : List Bool) (r : Option (A × Tables))
    → statement db.tables ≡ r
    → Executed statement db (committed (record db { outages = o }) r)
committed-Executed statement db o none e = inl (refl, refl)
committed-Executed statement db o (some (a, t)) e = inr (a, t, e, refl, refl)

exec_from-Executed :
    {A : Type 0} (statement : Statement A) (t : Tables) (o : List Bool)
    → Executed statement
        (record { tables = t; outages = o })
        (exec statement (record { tables = t; outages = o }))
unfolding exec
exec_from-Executed statement t [] =
    committed-Executed statement (record { tables = t; outages = [] }) [] _ refl
exec_from-Executed statement t (false ∷ o) =
    committed-Executed statement (record { tables = t; outages = false ∷ o }) o _ refl
exec_from-Executed statement t (true ∷ o) = inl (refl, refl)

pub exec-Executed :
    {A : Type 0} (statement : Statement A) (db : Database)
    → Executed statement db (exec statement db)
exec-Executed statement db = exec_from-Executed statement db.tables db.outages

-- What every statement keeps holds after its execution, whether or not the server answers.
pub exec-keeps {ℓ} :
    {A : Type 0} (P : Tables → Type ℓ) (statement : Statement A) (db : Database)
    → ((a : A) (t : Tables) → statement db.tables ≡ some (a, t) → P t)
    → P db.tables
    → P (exec statement db).1.tables
exec-keeps P statement db step h = elim (exec-Executed statement db) [
  | inl (_, same) ↦ rw same h
  | inr (a, t, e, _, new) ↦ rw new (step a t e)
]

-- A statement that breaks a constraint throws and leaves the tables.
pub exec-refused :
    {A : Type 0} (statement : Statement A) (db : Database)
    → statement db.tables ≡ none
    → ((exec statement db).0 ≡ none) × ((exec statement db).1.tables ≡ db.tables)
exec-refused statement db h = elim (exec-Executed statement db) [
  | inl r ↦ r
  | inr (a, t, e, _, _) ↦ cc
]
