-- ===== src/Storage/Attempts.antt =====
-- Calls of several statements: what they come to where one of them is refused, and transactions.
pub mod Laws
use nexustal.Storage.{exec, Database, Tables, Statement}
use nexustal.Common.{Bool, Option, none, some, if◌then◌else◌}

-- A result; a `DrogonDbException`, which the repositories catch; or another exception.
pub data Attempt (A : Type 0) : Type 0 where
  done : A → Attempt A
  refused : Attempt A
  thrown : Attempt A

abbrev pub Trial : Type 0 → Type 0
Trial A = Database → Attempt A × Database

abbrev pub next : {A B : Type 0} → Attempt A → (A → Trial B) → Trial B
next (done a) f = f a
next refused f = λ db. (refused, db)
next thrown f = λ db. (thrown, db)

infixl 5 ◌>>=◌ ◌>>◌
abbrev pub ◌>>=◌ : {A B : Type 0} → Trial A → (A → Trial B) → Trial B
◌>>=◌ m f db = next (m db).0 f (m db).1

abbrev pub ◌>>◌ : {B : Type 0} → Trial (Unit {0}) → Trial B → Trial B
m >> k = m >>= λ _. k

abbrev pub pure : {A : Type 0} → A → Trial A
pure a db = (done a, db)

abbrev pub throw : {A : Type 0} → Trial A
throw db = (thrown, db)

abbrev pub answered : {A : Type 0} → Option A → Attempt A
answered none = refused
answered (some a) = done a

-- One statement.
abbrev pub attempt : {A : Type 0} → Statement A → Trial A
attempt statement db = (answered (exec statement db).0, (exec statement db).1)

-- What a call of another function gives: nothing is its exception.
abbrev pub returned : {A : Type 0} → Option A → Attempt A
returned none = thrown
returned (some a) = done a

abbrev pub call : {A : Type 0} → (Database → Option A × Database) → Trial A
call m db = (returned (m db).0, (m db).1)

-- The handler of `DrogonDbException`: it gives the fallback, and other exceptions go out.
abbrev pub rescued : {A : Type 0} → A → Attempt A → Option A
rescued fallback (done a) = some a
rescued fallback refused = some fallback
rescued fallback thrown = none

abbrev pub rescue : {A : Type 0} → A → Trial A → Database → Option A × Database
rescue fallback m db = (rescued fallback (m db).0, (m db).1)

-- The tables after a transaction. A refused statement rolls it back. What a transaction comes to
-- that another exception leaves without commit and rollback is up to the database client: `kept`
-- says that its destructor commits.
abbrev pub closed : {A : Type 0} → (kept : Bool) → Tables → Attempt A → Database → Database
closed kept t (done a) db = db
closed kept t refused db = record db { tables = t }
closed kept t thrown db = if kept then db else record db { tables = t }

unfoldable pub transaction : {A : Type 0} → (kept : Bool) → Trial A → Trial A
transaction kept m db = ((m db).0, closed kept db.tables (m db).0 (m db).1)
