-- ===== src/Lib.antt =====
-- auth-middleware: sessions of devices for web applications behind a reverse proxy. A user logs in
-- at an OAuth2 provider; the program keeps a row for each device, with a secret and a generation,
-- and gives out a refresh token and an access token signed with that secret. Rotating the refresh
-- token raises the generation, by which older tokens are told apart; deleting the row ends the
-- session.
--
-- The parts, and where they are modelled:
--   * Prelude (Prelude/Tests, Prelude/State): the names the other files share, and stateful code. An
--     action is a function from a world to a result and the next world; an error is a value and
--     undoes nothing. Errors has the sentinels of the packages and `errors.Is`. Text has what the
--     program uses of Go's package strings.
--   * Jwt (Jwt/Library, Jwt/Issue): jwt/jwt.go and jwt/options.go. verifyToken, parserOptions,
--     GenerateRefresh, GenerateAccess and RotateRefresh are verify_token, parser_options,
--     generate_refresh, generate_access and rotate_refresh. Jwt/Verify, Jwt/Sessions and
--     Jwt/RoundTrip are about them.
--   * Database: database/device.go and the cleanup statement of database/database.go over the table
--     of database/schema/schema.sql. A statement may fail before it runs, or run with its reply
--     lost. Database/Rows, /Devices, /Invariant and /Absence are about them.
--     Database/Setup: database/options.go and the opening of a database. Database/Cleanup: the worker.
--   * Users (Users/Setup): server/internal/usersdb. Users/Cascade and Users/Deletion are about it.
--   * Server (Server/Client): the routes of server/internal/handlers/handlers.go, and what
--     server/cmd/main.go makes of the configuration.
--   * Cache: server/internal/cache/memory.go; Cache/Secrets: server/internal/cache/device/device.go
--     and memory.go; Cache/CachedDb: cached_db.go beside them, with the loads that singleflight shares
--     (secretLoads) as a part of its state; Cache/States:
--     server/internal/cache/state. States/Setup is its NewCache. Cache/Redis (Redis/Secrets,
--     Redis/States): redis.go in these three folders, each operation as the command that it sends;
--     the Lua script of SetSecret is set_newer. Redis/Secrets/Entries is about the entries.
--     Cache/Interleaving and the files below it take the methods of cached_db.go among the steps of
--     other callers.
--   * Identity (Identity/Expiry): server/internal/identity/identity.go.
--   * Flight (Flight/Sharing): server/internal/flight/flight.go for one caller at a time; Flight/Setup
--     has its New and its store in Redis.
--   * Handlers: server/internal/handlers. Response, RefreshToken and Options are the packages of
--     these names; Session is session/session.go, Refresh is refresh/refresh.go, Login and Callback
--     are login/login.go. The files below them, and Handlers/Revocation, are about them.
--   * Config/Duration (Config/Duration/Exact): server/internal/config/duration.go. Config/Load and
--     Config/Items: config.go beside it; the errors that envReader joins are a list in their order.
--     Config/Load/Sound and Config/Load/Valid are about them.
--   * Schema (Schema/References): database/schema/schema.go, its regular expression as a parser.
--   * Providers: oauth2/providers. Providers itself has what providers.go gives all of them, Select
--     its New; Google, Discord, Generic and GitHub are the files of these names; Oidc and Discovery
--     are oidc.go, the latter FetchDiscovery. Answers, Select/Emails, Oidc/Users and
--     Discovery/Rounds are about them.
--   * OAuthClient (OAuthClient/Issuer): oauth2/oauthclient/client.go.
--   * Revocation: the tokens over the cached database, as server/cmd/main.go puts them together.
--   * Tests: data at which definitions and theorems are evaluated.
--
-- How they interact: a handler calls the token manager (Jwt) and the device database; both are the
-- cached database (Cache/CachedDb), which reads through the secret cache to the tables (Database).
-- The handlers of refreshes and logins run their work through Flight.
--
-- Numbers are natural numbers; a generation in a token may come from outside and be negative, so it
-- is an integer there, and the column type INT bounds it in the table: an UPDATE beyond 2^31 - 1 is
-- an error of PostgreSQL. Times and durations are in nanoseconds, in the tables in seconds, and are
-- not bounded, but for a configured duration, which is bounded by int64 as in the source. The loop
-- of parseDuration runs on fuel: the length of the text, which is enough. The loop of FetchDiscovery
-- runs on fuel too, one unit for each round: it ends when the context does, so that one more than the
-- rounds until then is enough.
--
-- Parameters, for code that is not in this repository: golang-jwt (`JwtLib`, `TokenLib`, with
-- `RoundTrips` for what it documents of a text that it signed), PostgreSQL (`Engine`), otter
-- (`Otter`, `OtterLaws`), rueidis and rueidislock (`Client`, `Locker`; Flight takes the store that
-- it makes of them as `RedisStore`), strconv.Itoa (`itoa`, `Decimal`), Lua's numbers (`tonumber`,
-- `Double`), crypto/rand (`Random`), net/http and golang.org/x/oauth2 (`Web`, `Authorization`),
-- encoding/json and encoding/base64 (the records named codecs), database/sql (`Sql`), the
-- endpoints of other packages (`Endpoints`), and pgx's quoting of identifiers. The login handlers
-- take the OAuth2 client as the interface that they declare (`OAuth2Client`).
--
-- Concurrency: a method, a handler and otter's operations are each one action; other callers come
-- before and after it. Cache/Interleaving takes apart what an update and a deletion of the cached
-- database do, and lets other callers come between its parts too.
--
-- Not modelled: the log, expiry and eviction in the caches (no entry expires or is evicted between
-- the first and the last step of a theorem), several callers of one flight key at one time, the
-- text of the SQL schema, the text of the errors that carry a status, the test provider, and the
-- start of the server.
pub mod OAuthClient
pub mod Prelude
pub mod Errors
pub mod Text
pub mod Jwt
pub mod Database
pub mod Cache
pub mod Identity
pub mod Providers
pub mod Users
pub mod Revocation
pub mod Flight
pub mod Handlers
pub mod Config
pub mod Schema
pub mod Server
pub mod Tests
