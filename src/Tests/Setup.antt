-- ===== src/Tests/Setup.antt =====
-- A setup over the PostgreSQL users.
use nexustal.Storage.Users.Laws.{create_user-id}
use nexustal.Tests.Data.{plain}
use nexustal.Storage.{Database}
use nexustal.Storage.Users.{user_repository}
use nexustal.Domain.Ports.{PasswordHasher, UserRepository}
use nexustal.Services.Wizard.Progress.{IsNamed, administering, Names, configuring, Call}
use nexustal.Common.{refl, List, [], ◌∷◌, arith, lit, ◌==◌, All}

abbrev hasher : PasswordHasher
hasher = record { hash = λ password. password; verify = λ password hash. password == hash }

abbrev store : UserRepository Database
store = user_repository plain (b'f' ∷ []) (b'v' ∷ [])

names : Names store hasher
names user s named e =
    absurd (ground (arith, create_user-id (b'f' ∷ []) (b'v' ∷ []) user s [] named e))

abbrev calls : List Call
calls =
    configuring
      (record { host = lit "db"; port = 5432; dbname = lit "nt"; user = lit "nt"; password = [] })
    ∷ administering (b'r' ∷ []) (b'1' ∷ []) 3
        (record { username = lit "root"; password = lit "pw" })
    ∷ configuring (record { host = []; port = 0; dbname = []; user = []; password = [] })
    ∷ []

named : All (IsNamed store hasher) calls
named = (tt, (refl, (tt, tt)))
