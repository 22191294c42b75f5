-- ===== src/Lib.antt =====
-- Verification of the Nexustal engine (backend/).
--
-- The engine serves teams that describe API endpoints: a setup wizard, users, teams and projects
-- with roles, invitations, endpoints with per-role rights, login tokens, and the execution of
-- requests with variables. Controllers call the services, the services call repositories, which
-- run SQL statements on PostgreSQL, and three of these parts keep values in Redis.
--
-- Files and what they model (paths from the repository's root):
--   Domain/Uuid            backend/domain/common.hpp; the sixteen bytes are an argument
--   Domain/Identity        backend/domain/identity.hpp and notification_port.hpp
--   Domain/Capabilities    backend/domain/auth/capabilities.hpp
--   Domain/Endpoint        backend/domain/endpoint.hpp
--   Domain/Environment     backend/domain/environment/environment.hpp
--   Domain/Wizard          backend/domain/wizard_contracts.hpp
--   Domain/Ports           the abstract classes that the services call
--   Domain/Json            the values of nlohmann::json; its functions are a parameter with laws
--   Storage                the tables of backend/migrations (001, 002, 003 and 005) that the
--                          repositories use, and their constraints
--   Storage/Users, Members and Invitations
--                          the repositories backend/infrastructure/adapters/postgres_*.cpp of
--                          users, teams and projects, and invitations
--   Storage/Attempts       sequences of statements and transactions
--   Storage/Columns        columns of bounded texts
--   Storage/Timestamps     backend/infrastructure/adapters/timestamp_codec.hpp
--   Storage/Details, Endpoints and Environments
--                          postgres_endpoint_repository.cpp and
--                          postgres_environment_repository.cpp of the same directory
--   Services/Invitations   backend/application/invitation_service.cpp
--   Services/Roles         backend/application/role_service.cpp
--   Services/Endpoints     backend/application/endpoint_service.cpp
--   Services/Wizard        backend/application/wizard_service.cpp
--   Services/Auth          backend/application/auth_service.cpp
--   Services/Users         backend/application/identity_use_cases.hpp
--   Services/Engine and Services/Endpoints/Postgres
--                          the wiring of backend/src/main.cpp, as far as the services need it
--   Sessions/Tokens        backend/infrastructure/adapters/jwt_token_service.cpp
--   Sessions/Login         the authentication service over the token service
--   Sessions/Postgres      the token service over the PostgreSQL users and a Redis that may lose
--                          commands
--   Execution/Replace      the replacement loop of
--                          backend/application/execution/dynamic_variables.hpp
--   Execution/Variables    the rest of it, and overrides and substitution of
--                          backend/application/execution/request_executor.cpp
--   Execution/Bundles      backend/application/execution/request_bundle.hpp
--   Execution/Scripts      runScript of request_executor.cpp, and the native handlers of
--                          backend/infrastructure/sandbox/nt_api_bindings.cpp
--   Execution/Requests     execute of request_executor.cpp
--   Execution/Environments backend/infrastructure/adapters/environment_cache.cpp
--   Sandbox                backend/infrastructure/sandbox/quickjs_sandbox.cpp; Sandbox/Script is
--                          what it asks of the engine
--   Sandbox/Api, Results and Assertions
--                          backend/infrastructure/sandbox/nt_api_bindings.cpp and the script that
--                          it installs: environment and log, the results of tests, assertions
--   Sandbox/Runs           runScript of request_executor.cpp on the sandbox
--   Platform/Versions      what the migration runner uses of the standard library
--   Platform/Migrations    backend/src/platform/migration_runner.cpp
--   Platform/Startup       backend/src/main.cpp: settings, Redis, migrations and listener
--   Events/Streams         backend/infrastructure/adapters/sse_connection_manager.cpp; in
--                          Notifications, redis_notification_service.cpp of the same directory
--                          and backend/src/controllers/sse_controller.cpp
--   Http                   requests and responses of the server
--   Http/Filter            backend/src/filters/jwt_auth_filter.cpp
--   Http/Routes            the routes in backend/src/controllers/*_controller.hpp
--   Http/Payloads, Endpoints, Invitations, Wizard and Auth
--                          the controllers backend/src/controllers/*_controller.cpp of endpoints,
--                          invitations, the wizard, and login and logout
-- The child modules of these hold the laws; Tests applies the theorems to concrete inputs.
--
-- How the code is rendered. A text is the list of its character codes. A function that changes
-- state takes it and gives it back (`Action`). An identifier that the code draws at random, and
-- the time, are arguments. An exception that leaves a function is a missing result; one that the
-- code catches takes the branch of its handler. An SQL statement is a function on the tables that
-- fails where it breaks a constraint; a database carries the sequence of the refusals to come (a
-- lost connection, say), one for each statement, and refuses none when the sequence is used up.
-- A refused statement leaves the tables. Identifiers have no format in the tables: a text that is
-- no UUID, which PostgreSQL refuses, counts as unknown.
--
-- The replacement loop runs on fuel, the length of the text and one more: each round moves the
-- position past the replacement, and what lies behind it is shorter by the token, which is not empty.
-- The binary search runs on the length of the list, which each round halves.
--
-- A run of a script is a tree: a value or an exception at its ends, and on the way the calls of
-- native functions and the polls of the interrupt handler. The printing of the value is
-- such a tree again, since it runs the getters and the toJSON of the script. Execution/Scripts takes
-- the sequence of the calls alone.
--
-- A transaction is a sequence of statements after which the tables are those before it where a
-- statement was refused. What a transaction comes to that another exception abandons is the
-- database client's affair, and an argument. A JSON column holds the value that was printed.
--
-- Commands to Redis are not waited for by the code: the laws on cached token versions let a write
-- or a deletion be without effect, and a theorem that needs the deletion says so. The endpoint
-- service on PostgreSQL stands for a start without Redis, where roles are read from the tables, and
-- its updates for a client with a connection left for the look-up inside the transaction.
--
-- Parameters: the order and ILIKE of the server's collation, password hashing, the signing and
-- checking of tokens, the functions of nlohmann::json and JsonCpp, Redis, the running of a
-- migration's SQL, the calendar of the C library, the script engine (evaluation, JSON, arrays and
-- comparison of values), the server's choice of a route and whether it
-- resolves the name of the filter, the process environment and the HTTP transport, and, for the endpoint and
-- token services, the repositories behind them, through records of the laws that they are used by.
--
-- Not modelled: the QuickJS engine itself, the release of its memory and of the subscriber, bcrypt,
-- printing and logging, the tables that no code uses, and the mutexes, which make each operation on
-- the streams one step.
mod Common
pub mod Http
pub mod Domain
pub mod Storage
pub mod Services
pub mod Sessions
pub mod Execution
pub mod Tests
pub mod Platform
pub mod Events
pub mod Sandbox
