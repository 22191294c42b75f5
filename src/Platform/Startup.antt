-- ===== src/Platform/Startup.antt =====
-- backend/src/main.cpp: the settings, the bootstrap of Redis, and the order of the start. The
-- environment, the Redis client and the migrations' SQL are parameters; printing is left out.
pub mod Laws
use nexustal.Platform.Migrations.{VersionOrder, Entry, Outcome, thrown, applied, run_directory}
use nexustal.Common.{
  ℕ, zero, suc, ◌+◌, ◌-◌, ◌*◌, ◌/◌, ◌%◌, ◌^◌, ◌≤◌, ◌<◌, String, ◌≡◌, refl, sym, ap, ◌∙◌, subst, ◌≢◌,
  ◌↔◌, ◌⊎◌, inl, inr, Bool, true, false, not, ◌&&◌, ◌||◌, Option, none, some, List, [], ◌∷◌, ◌++◌,
  append_assoc, append-nil, arith, ltb, leb, eqb, if◌then◌else◌, Bool-cases, Option-cases, is_some,
  Text, lit, ◌==◌, is_empty, eq_iff, eq_refl, ==-false, length, length-append, find_if, get_elem?,
  modify, take-length, drop-length, take, drop, drop-zero, take-append, drop-append, update_where,
  count_if, count_if-pos, find_if-any, find_if-holds, insert_desc, order_desc, any-insert_desc,
  any-order_desc, All-insert_desc, All-order_desc, find_if-All, any-select, any-false, any_mono,
  any-append, All-append, All-select_self, find_if_unique, any, select, All, All-select, Dict,
  lookup, put, without, lookup-put, lookup-without, Action, ◌>>=◌, ◌>>◌, pure,
}

unfoldable pub env_or : (getenv : Text → Option Text) → Text → Text → Text
env_or getenv key fallback = elim (getenv key) [ none ↦ fallback | some value ↦ value ]

pub record Settings : Type 0 where
  pub install_mode : Text
  pub http_port : Text
  pub ws_port : Text
  pub db_host : Text
  pub db_port : Text
  pub db_name : Text
  pub db_user : Text
  pub db_password : Text
  pub jwt_secret : Text
  pub redis_host : Text
  pub redis_port : Text

unfoldable pub settings : (getenv : Text → Option Text) → Settings
unfolding env_or
settings getenv = record {
  install_mode = env_or getenv (lit "INSTALL_MODE") (lit "false");
  http_port = env_or getenv (lit "NEXUSTAL_HTTP_PORT") (lit "8080");
  ws_port = env_or getenv (lit "NEXUSTAL_WS_PORT") (lit "9001");
  db_host = env_or getenv (lit "DB_HOST") (lit "localhost");
  db_port = env_or getenv (lit "DB_PORT") (lit "5432");
  db_name = env_or getenv (lit "DB_NAME") (lit "nexustal");
  db_user = env_or getenv (lit "DB_USER") (lit "nexustal");
  db_password = env_or getenv (lit "DB_PASSWORD") (lit "nexustal_dev");
  jwt_secret = env_or getenv (lit "JWT_SECRET") (lit "development-only-secret-change-me");
  redis_host = env_or getenv (lit "REDIS_HOST") (lit "localhost");
  redis_port = env_or getenv (lit "REDIS_PORT") (lit "6379");
}

unfoldable pub connection_info : Settings → Text
connection_info s =
    lit "host="
    ++ (s.db_host
        ++ (lit " port="
            ++ (s.db_port
                ++ (lit " dbname="
                    ++ (s.db_name
                        ++ (lit " user=" ++ (s.db_user ++ (lit " password=" ++ s.db_password))))))))

abbrev pub is_digit : ℕ → Bool
is_digit c = leb 48 c && leb c 57

-- The digits in front, with what has been read before them; whether there is one is `seen`.
unfoldable pub digits_value : (seen : Bool) → ℕ → Text → Option ℕ
digits_value seen n [] = if seen then some n else none
digits_value seen n (c ∷ s) =
    let more = digits_value true (n * 10 + (c - 48)) s in
    if is_digit c then more else if seen then some n else none

-- Whether the number is negative, and its magnitude; an `int` has 32 bits.
abbrev pub in_int : Bool → Option ℕ → Option (Bool × ℕ)
in_int negative none = none
in_int false (some n) = if leb n 2147483647 then some (false, n) else none
in_int true (some n) = if leb n 2147483648 then some (true, n) else none

abbrev pub signed : Text → Option (Bool × ℕ)
signed [] = none
signed (c ∷ s) =
    if eqb c 45
    then in_int true (digits_value false 0 s)
    else if eqb c 43
    then in_int false (digits_value false 0 s)
    else in_int false (digits_value false 0 (c ∷ s))

abbrev pub is_space : ℕ → Bool
is_space c = eqb c 32 || leb 9 c && leb c 13

unfoldable pub skip_space : Text → Text
skip_space [] = []
skip_space (c ∷ s) = let rest = skip_space s in if is_space c then rest else c ∷ s

-- `std::stoi`, with nothing where it throws
unfoldable pub stoi : Text → Option (Bool × ℕ)
unfolding skip_space digits_value
stoi text = signed (skip_space text)

-- `static_cast<uint16_t>`
abbrev pub as_uint16 : Bool × ℕ → ℕ
as_uint16 (false, n) = n % 2 ^ 16
as_uint16 (true, n) = (2 ^ 16 - n % 2 ^ 16) % 2 ^ 16

-- What a client library does: whether a client, its subscriber and its publisher come about.
pub record RedisLib : Type 0 where
  pub new_client : Text → Bool × ℕ → Bool
  pub new_streams : Bool
  pub new_notifications : Bool

-- Which of the pointers are set.
pub record RedisParts : Type 0 where
  pub client : Bool
  pub streams : Bool
  pub notifications : Bool

abbrev pub parts : Bool → Bool → Bool → RedisParts
parts client streams notifications = record {
  client = client;
  streams = streams;
  notifications = notifications;
}

-- A failure is logged, and what has been set stays.
unfoldable pub redis_bootstrap : RedisLib → Settings → RedisParts
redis_bootstrap redis s = elim (stoi s.redis_port) [
  | none ↦ parts false false false
  | some port ↦
      if redis.new_client s.redis_host port
      then (if redis.new_streams
          then parts true true redis.new_notifications
          else parts true false false)
      else parts false false false
]

-- The process ends with the code 1 where the start fails; else it listens on a port.
pub data Start : Type 0 where
  bootstrap_failed : Start
  listening : RedisParts → (port : ℕ) → Start

abbrev pub listen : RedisParts → Option (Bool × ℕ) → Start
listen redis none = bootstrap_failed
listen redis (some port) = listening redis (as_uint16 port)

abbrev pub after_migrations : RedisLib → Settings → Outcome → Start
after_migrations redis s thrown = bootstrap_failed
after_migrations redis s (applied _) = listen (redis_bootstrap redis s) (stoi s.http_port)

-- `main`, from a directory of migrations and a database that answers.
unfoldable pub start_engine :
    {S : Type 0}
    → (getenv : Text → Option Text) → RedisLib
    → (Text → S → Option S)
    → VersionOrder
    → Option (List Entry)
    → Option (List Text) × S
    → Start × (Option (List Text) × S)
unfolding settings redis_bootstrap
start_engine getenv redis sql server directory database =
    let (outcome, migrated) = run_directory sql server directory database in
    (after_migrations redis (settings getenv) outcome, migrated)
