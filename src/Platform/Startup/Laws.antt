-- ===== src/Platform/Startup/Laws.antt =====
-- What the engine listens on.
use nexustal.Platform.Startup.{
  Settings, settings, RedisLib, redis_bootstrap, bootstrap_failed, listening, listen,
  after_migrations, start_engine, stoi, digits_value, is_digit, skip_space,
}
use nexustal.Platform.Migrations.{VersionOrder, Entry, Outcome, thrown, applied, run_directory}
use nexustal.Common.{
  ℕ, ◌+◌, ◌-◌, ◌*◌, ◌%◌, ◌^◌, ◌≤◌, ◌≡◌, refl, ap, ◌∙◌, Bool, true, false, Option, some, List, [],
  ◌∷◌, arith, if◌then◌else◌, Text, All,
}

-- The number that a text of digits stands for.
abbrev pub value_from : ℕ → Text → ℕ
value_from n [] = n
value_from n (c ∷ s) = value_from (n * 10 + (c - 48)) s

digits_value-read :
    (n : ℕ) (s : Text)
    → All (λ c. is_digit c ≡ true) s
    → digits_value true n s ≡ some (value_from n s)
unfolding digits_value
digits_value-read n [] h = refl
digits_value-read n (c ∷ s) (first, rest) = rw first (digits_value-read (n * 10 + (c - 48)) s rest)

stoi-digits :
    (c : ℕ) (s : Text)
    → All (λ d. is_digit d ≡ true) (c ∷ s)
    → value_from 0 (c ∷ s) ≤ 2147483647
    → stoi (c ∷ s) ≡ some (false, value_from 0 (c ∷ s))
unfolding stoi skip_space digits_value
stoi-digits c s (first, rest) bound =
    let read = digits_value-read (c - 48) s rest in ground (arith, first, read, bound)

abbrev pub is_thrown : Outcome → Bool
is_thrown thrown = true
is_thrown (applied _) = false

after_migrations-listen :
    (redis : RedisLib) (s : Settings) (outcome : Outcome) (n : ℕ)
    → stoi s.http_port ≡ some (false, n)
    → after_migrations redis s outcome ≡ (
        if is_thrown outcome
        then bootstrap_failed
        else listening (redis_bootstrap redis s) (n % 2 ^ 16))
after_migrations-listen redis s thrown n h = refl
after_migrations-listen redis s (applied _) n h = ap (listen (redis_bootstrap redis s)) h

-- While the migrations throw nothing and the port is written in digits as a number that an `int`
-- holds, the engine listens, whatever becomes of Redis; the port is the number without all but
-- its lowest 16 bits, so a number beyond 65535 is another port. Where a migration throws, the
-- engine does not listen.
pub start_engine-port :
    {S : Type 0} (getenv : Text → Option Text) (redis : RedisLib) (sql : Text → S → Option S)
    (server : VersionOrder) (directory : Option (List Entry)) (database : Option (List Text) × S)
    (c : ℕ) (s : Text)
    → (settings getenv).http_port ≡ c ∷ s
    → All (λ d. is_digit d ≡ true) (c ∷ s)
    → value_from 0 (c ∷ s) ≤ 2147483647
    → (start_engine getenv redis sql server directory database).0 ≡ (
        if is_thrown (run_directory sql server directory database).0
        then bootstrap_failed
        else listening (redis_bootstrap redis (settings getenv)) (value_from 0 (c ∷ s) % 2 ^ 16))
unfolding start_engine
start_engine-port getenv redis sql server directory database c s port digits bound =
    after_migrations-listen redis (settings getenv) (run_directory sql server directory database).0
      _ (ap stoi port ∙ stoi-digits c s digits bound)
