-- ===== src/Lib.antt =====
-- A verification library for the FastAPI application in app/: its sessions, API keys, users, OAuth accounts,
-- rate limiter, cache and security checks.
--
-- The application answers HTTP requests. A request may carry a session cookie and a CSRF token, which
-- the session manager issues, validates and ends over a storage of sessions; the dependencies of a
-- route turn them into the user that makes the request. A request may be counted by the rate limiter,
-- which asks a backend through a provider, and a login attempt is counted by the same backends. It may
-- come with an API key, which is checked against the hashes and the permissions in the database. The
-- services change users, tiers and rate limits in the database, and OAuth adds users. Before the
-- application starts in a production environment its settings are checked.
--
-- Files:
--   Common: names of the libraries, tests on native numbers, lists, Python's `dict` as an association
--     list in insertion order, methods and slices of `str`, decimal numerals, and a state-and-error
--     monad in which what was written before a raise stays written.
--   Database: `FastCRUD` as a record of its methods (`Crud`) with what is assumed of them (`IsLawful`).
--     Children: Absent and Distinct (what its writes do to the rows and to a column of distinct values),
--     Memory (a table in a list that meets the assumptions).
--   Session/Storage: app/core/auth/session/backends/memory.py and what it inherits from base.py. One
--     function for each method, by its name. Children: Pattern (the patterns of `_scan_iter`), View (what
--     the storage shows under a key at an instant), Consistent and Calls (the two dictionaries together),
--     Wiped (scans and deletion by pattern), Keys.
--   Session/Redis: app/core/auth/session/backends/redis.py; `delete_session` is its `delete`. Children:
--     Laws (the server), Shown (what `get` gives after each operation).
--   Session/Schemas, Session/Manager, Session/Lifecycle, Session/Login: app/core/auth/session/schemas.py
--     and manager.py over the memory storage. `Config` holds the arguments of `__init__` that stay,
--     `Manager` the two storages and `last_cleanup`; Login has the login attempts. Children: Access,
--     Keeps, Termination, Validation, Csrf, Runs, History, Creation, Attempts.
--   Session/Dependencies: app/core/auth/session/dependencies.py; `admit` chains the dependencies of a
--     route that wants a user. Child: Admission.
--   RateLimit/Path, Backend, Redis, Memcached, Provider, Check: app/core/rate_limit/utils.py, base.py,
--     backends/redis.py, backends/memcached.py, provider.py, and app/middleware/rate_limit.py. Window says
--     what counting in windows means, and the `Laws` of a backend connect it to that.
--   Security/Characters, Validator, Warnings: app/core/security/production_validator.py.
--   ApiKeys/Secret, Schemas, Service, Permission: app/services/api_key.py and the tables of
--     app/models/api_key.py. Children that prove: Validation, Ownership, Issue. Usage: the reports of
--     app/models/api_key.py on the usage of a key.
--   Services/Tier, RateLimits, User, User/Service: app/services/tier.py, rate_limit.py and user.py with
--     the models of app/models. Children that prove: Names, Change, Calls, Anonymize.
--   OAuth: app/core/auth/oauth/services.py. `UserBase` checks the new user. Child: Accounts.
--   Errors: app/utils/exceptions.py, constants.py and error_handler.py. Child: Mapping.
--   Cache: app/core/cache/decorator.py, with `infer_resource_id` of utils.py, and backends/redis.py. Children:
--     Redis, Invalidation.
--   Modules whose name ends in Tests: runs on concrete inputs.
--
-- Time: a `datetime` is a number of microseconds, and in the rate limiter, the login attempts and the
-- storage in Redis a number of seconds, as the code truncates it there. Each reading of the clock is a
-- value of its own: an operation of a storage or of a service takes the instants that it reads, and the
-- manager numbers its readings. Where a theorem needs it, the clock does not go back.
--
-- The database: a filter (`name=name`) is a test of a row, an update is a change of a row, and a field of
-- an update is none where the caller has not set it. A table has the columns that the code reads or
-- writes; the timestamps that FastCRUD keeps by itself are left out, and so are the values that a column
-- may not have, which the database refuses. Reads change nothing, and a call of a service runs to its end
-- before another begins: a unique constraint of the database is what guards two calls that interleave.
--
-- Recursion is structural throughout: over lists, texts and dictionaries. There are two fuels. That of
-- `str`, which writes a number n with n + 1 steps, and each step divides by ten. And that of the loop for
-- a username in OAuth, which is enough if it exceeds a number whose username is free; there need be none.
--
-- Parameters of the model: FastCRUD and its joins, pydantic's encoding (`Codec`), the parser of user
-- agents, the values of `uuid4`, `secrets.token_hex` and `secrets.token_urlsafe`, the clients of Redis
-- and Memcached (with laws for what their servers document), the digest of `hashlib.md5`, `scrypt`,
-- `base64` and `compare_digest` (`Crypto`), the hash and the verification of a password, `str.lower`, the
-- check of pydantic's `EmailStr`, JSON and FastAPI's `jsonable_encoder` in the cache, and the status codes
-- of the exceptions that FastCRUD defines.
--
-- Not modelled: requests that interleave within an operation; the storage of sessions in Memcached and
-- its list of a user's sessions; the cookies of responses; the routes of app/api, which call what is
-- modelled; the validators of the schemas, which run before it; the exchange with OAuth providers; the
-- formatting of cache keys, the provider of the cache and its backend for Memcached; logging and the
-- assembly of the application. The texts of log messages are left out. An instant has no bound, where a
-- deadline after the year 9999 makes the code raise, and a pattern of the storage in memory with a special
-- character of regular expressions other than `*` and `?` is not modelled.
mod Common
pub mod Database
pub mod Session
pub mod RateLimit
pub mod Security
pub mod ApiKeys
pub mod Services
pub mod OAuth
pub mod Errors
pub mod Cache
