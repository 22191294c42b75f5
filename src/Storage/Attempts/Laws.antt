-- ===== src/Storage/Attempts/Laws.antt =====
-- What a call that is done has done.
use nexustal.Storage.Execution.{exec-Executed, exec-keeps}
use nexustal.Storage.{Database, exec, Tables, Statement}
use nexustal.Storage.Attempts.{
  thrown, rescue, refused, closed, attempt, next, done, Trial, Attempt, transaction, ◌>>=◌,
}
use nexustal.Common.{◌≡◌, refl, ap, ◌∙◌, subst, ◌≢◌, ◌⊎◌, inl, inr, Bool, true, false, some, arith}

-- A statement that is done gives its result and the tables.
pub attempt-done :
    {A : Type 0} (statement : Statement A) (db : Database) (a : A)
    → (attempt statement db).0 ≡ done a
    → statement db.tables ≡ some (a, (attempt statement db).1.tables)
attempt-done statement db a h = elim (exec-Executed statement db) [
  | inl (missing, _) ↦ ground (arith, missing)
  | inr (b, t, e, found, new) ↦ rw new (e ∙ ap (λ x. some (x, t)) (ground (arith, found)))
]

Attempt-cases :
    {A : Type 0} (r : Attempt A) → ((a : A) × (r ≡ done a)) ⊎ ((r ≡ refused) ⊎ (r ≡ thrown))
Attempt-cases (done a) = inl (a, refl)
Attempt-cases refused = inr (inl refl)
Attempt-cases thrown = inr (inr refl)

-- Both parts of a sequence that is done are.
abbrev pub Then : {A B : Type 0} → Trial A → (A → Trial B) → Database → B → Type 0
Then {A} m f db b =
    (a : A) × ((m db).0 ≡ done a) × ((f a (m db).1).0 ≡ done b) × ((m >>= f) db ≡ f a (m db).1)

pub >>=-done :
    {A B : Type 0} (m : Trial A) (f : A → Trial B) (db : Database) (b : B)
    → ((m >>= f) db).0 ≡ done b
    → Then m f db b
>>=-done m f db b h = elim (Attempt-cases (m db).0) [
  | inl (a, e) ↦
      (a, e, subst (λ r. (next r f (m db).1).0 ≡ done b) e h, ap (λ r. next r f (m db).1) e)
  | inr (inl e) ↦ ground (arith, e)
  | inr (inr e) ↦ ground (arith, e)
]

-- A transaction that gives another result than the fallback is done and committed.
pub transaction-committed :
    {A : Type 0} (kept : Bool) (fallback a : A) (m : Trial A) (db : Database)
    → a ≢ fallback
    → (rescue fallback (transaction kept m) db).0 ≡ some a
    → ((m db).0 ≡ done a) × ((rescue fallback (transaction kept m) db).1 ≡ (m db).1)
unfolding transaction
transaction-committed kept fallback a m db other h = elim (Attempt-cases (m db).0) [
  | inl (b, e) ↦ ground (arith, e)
  | inr (inl e) ↦ ground (arith, e)
  | inr (inr e) ↦ ground (arith, e)
]

-- What holds of the tables before a call holds of them afterwards, however the call ends.
module _ {ℓ} (P : Tables → Type ℓ) where
  abbrev pub Keeps : {B : Type 0} → (Database → B × Database) → Type ℓ
  Keeps m = (db : Database) → P db.tables → P (m db).1.tables

  pub exec-Keeps :
      {A : Type 0} (statement : Statement A)
      → ((t t' : Tables) (a : A) → P t → statement t ≡ some (a, t') → P t')
      → Keeps (exec statement)
  exec-Keeps statement step db h = exec-keeps P statement db (λ a t e. step db.tables t a h e) h

  next-Keeps :
      {A B : Type 0} (r : Attempt A) (f : A → Trial B) → ((a : A) → Keeps (f a)) → Keeps (next r f)
  next-Keeps (done a) f g db h = g a db h
  next-Keeps refused f g db h = h
  next-Keeps thrown f g db h = h

  pub >>=-Keeps :
      {A B : Type 0} (m : Trial A) (f : A → Trial B)
      → Keeps m
      → ((a : A) → Keeps (f a))
      → Keeps (m >>= f)
  >>=-Keeps m f k g db h = next-Keeps (m db).0 f g (m db).1 (k db h)

  closed-Keeps :
      {A : Type 0} (kept : Bool) (t : Tables) (r : Attempt A) (db : Database)
      → P t
      → P db.tables
      → P (closed kept t r db).tables
  closed-Keeps kept t (done a) db h k = k
  closed-Keeps kept t refused db h k = h
  closed-Keeps true t thrown db h k = k
  closed-Keeps false t thrown db h k = h

  pub transaction-Keeps :
      {A : Type 0} (kept : Bool) (m : Trial A) → Keeps m → Keeps (transaction kept m)
  unfolding transaction
  transaction-Keeps kept m k db h = closed-Keeps kept db.tables (m db).0 (m db).1 h (k db h)
