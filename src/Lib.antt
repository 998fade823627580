-- ===== src/Lib.antt =====
-- A verification library for knives, a URL shortener with accounts: services in Go over
-- PostgreSQL and Redis.
--
-- The parts and how they interact. cmd/api serves the users: it authorizes a request with
-- internal/permission, creates and edits short URLs with internal/shorturl, logs users in with
-- internal/auth by password, by passkey and at the OpenID and SAML providers that the
-- administrators configure, keeps their sessions in Redis, reads the statistics of
-- internal/stats, and purges the cache of internal/cache. cmd/redirect serves the short codes
-- from that cache and the tables, under a rate limit, and writes each click to a Redis stream.
-- cmd/worker reads the stream and records the clicks with internal/stats. cmd/migrate-yourls
-- imports the rows of another shortener. All of them keep their state in the tables that
-- internal/storage reads and writes.
--
-- State. `World` is what the services share: one list of rows for each table, the sessions and
-- their index in Redis, the logins that are under way there, the Redis tier of the cache, the
-- mails sent, and what the environment is going to do: which of the coming calls fail, which
-- random values are drawn, the next UUID, the time of the request, and a count of the argon2id
-- comparisons. A Go function that returns `(T, error)` is an action `World → Result T × World`
-- (World/Effects), written in `do` blocks. An error keeps what was written before it;
-- `transaction` puts the tables back. A process of cmd/redirect is a `Node`: the world, its own
-- tier of the cache, and the stream. The click recorder runs on `ClickDb`, the two click tables,
-- which the statistics read as `clicks` and `daily` of the world, and the short URLs that they
-- refer to. Where a theorem says that calls may fail, it holds for every such list of failures.
--
--   Permission      internal/permission/shorturl.go
--   World/Rows      internal/storage/models.go; Logins: its rows of providers and passkeys, and the
--                   keys in Redis of internal/auth's nonce and ceremony stores
--   Storage         Accounts: auth_store.go, auth_settings_store.go; Credentials:
--                   local_credential_store.go, local_signup_verification_store.go; Links:
--                   shorturl_store.go, permission_store.go, redirect_store.go,
--                   migration_store.go; Listing: `listShortURLs` of
--                   shorturl_store.go; Stats: stats_store.go; Cipher:
--                   credential_cipher.go; Providers: oidc_config_store.go,
--                   saml_config_store.go; Passkeys: webauthn_credential_store.go; each
--                   over the queries in its .sql.go
--   Auth            Identity: internal/auth/identity.go; Local: local.go; Signup:
--                   local_signup.go; Sessions: session.go; Crypto: the primitives that they
--                   take from libraries; Providers: oidc_config.go, saml_config.go;
--                   Nonces: oidc_nonce_redis.go, saml_nonce_redis.go,
--                   webauthn_session_redis.go; Oidc: oidc_login.go; Saml: saml_login.go;
--                   Passkeys: webauthn.go, webauthn_credential.go
--   ShortUrls       internal/shorturl/shorturl.go; Codes: aliases and random codes; Paging:
--                   `ListPage.normalize`; Listing: the lists
--   Cache           internal/cache/cache.go: the Redis tier; Tiers: both tiers
--   Api             cmd/api: Access: `resolveAccess` of middleware.go; Sessions: the rest of it;
--                   Logins: handlers_auth.go; Admin: handlers_admin.go; Permissions:
--                   handlers_permissions.go; Providers: handlers_oidc_admin.go,
--                   handlers_saml_admin.go; ProviderLogins: handlers_oidc_login.go,
--                   handlers_saml_login.go; Passkeys: handlers_webauthn.go; ShortUrls:
--                   handlers_shorturl.go; Stats: handlers_stats.go
--   UserAgent       internal/useragent/useragent.go
--   Clicks          internal/stats/click_recorder.go over click_event_store.go
--   Stats           internal/stats/reader.go
--   Worker          cmd/worker/consumer.go: `processBatch`; Reclaim: `reclaimStaleEntries`; Loop:
--                   `run`
--   Redirect        cmd/redirect/server.go; Limiter: ratelimit.go
--   Migrate         cmd/migrate-yourls/migration.go
--
-- Functions keep the names of the Go code in snake case. A handler takes the decoded request and
-- returns a `Reply`, with the errors that the code logs dropped; a handler of logins returns an
-- `Answer`, a reply with what becomes of the session cookie.
--
-- Parameters, for code outside the repository: hashing and argon2id (`Crypto`), net/url's and
-- net/mail's parsers, UUID and time parsers and their printing (`Formats`), the User-Agent
-- parser, ristretto (`LocalTier`, with the laws `IsLossy`) and golang.org/x/time/rate (`Bucket`,
-- with the law `Refills`), AES-GCM and base64 (`Aead`, with the laws `IsAead`), go-oidc with
-- oauth2 and the provider's answers (`OidcLibrary`), crewjam/saml (`SamlLibrary`), go-webauthn
-- (`WebauthnLibrary`), Redis's XAUTOCLAIM (`AutoClaim`, with the law `IsScan`), and the order of
-- the database's collation.
--
-- Bounds. UUIDs and times are natural numbers, times in nanoseconds from a midnight. Strings are
-- lists of bytes; case folding and white space are those of ASCII. Counters of Go's `int` and
-- PostgreSQL's `bigint` do not wrap. The loop over random codes runs five times as in the code;
-- the sweep over stale entries runs on fuel, of which one round for each id of the stream and one
-- more are enough; all other loops run over a list.
--
-- A session's time to live is positive: Redis reads 0 as none. Where SQL leaves the order of rows
-- of equal rank open, they stand in the order of the list. The foreign keys to users and short
-- URLs are tested as the database does; there is no table of domains, so the one of a short URL
-- to its domain is not.
--
-- Not modelled: the partitions of the click table, the CSV reader, SMTP and GeoIP, and the
-- processes' start with the settings and the default domain that it reads. The push of a click, a
-- goroutine in the code, happens with its request. Requests run one after another; the
-- interleaving of two is modelled for the extension of a session alone.
mod Prelude
pub mod Permission
pub mod World
pub mod Storage
pub mod Auth
pub mod ShortUrls
pub mod Cache
pub mod Api
pub mod UserAgent
pub mod Clicks
pub mod Stats
pub mod Worker
pub mod Redirect
pub mod Migrate
mod Examples
