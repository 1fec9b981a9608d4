-- ===== src/Lib.antt =====
-- KIS Auth: the identity and authentication service, as a model of its TypeScript sources.
--
-- The program. A browser comes to GET /authorize (src/oauth/oauth.controller.ts), which checks the
-- client against the registry (src/clients/client.service.ts), takes a link ticket if the purpose is
-- a link (src/security/link-ticket.ts), stores a session in Redis (src/oauth/oauth-session.store.ts)
-- and sends the browser to Google, or to the provider of an enterprise partner
-- (src/oauth/oidc-enterprise.controller.ts), whose configuration comes from Django
-- (src/oauth/oidc-provider-resolver.service.ts) and from the provider's discovery document
-- (src/oauth/oidc-discovery.service.ts). The callback comes back with a code, which is exchanged for
-- an id token; once the provider has vouched for an identity, src/oauth/oauth-outcome.service.ts links
-- it, issues a registration ticket, or issues an authorization code by way of a challenge
-- (src/redis/challenge-store.ts), over the table of identities (src/identity/identity.service.ts). The
-- browser goes on over a status page (src/web). Django then redeems the code or the ticket
-- (src/exchange) with a signed request (src/security/internal-signing.ts) and gets a JWT
-- (src/jwt/authorization-jwt.service.ts). The rate limiter (src/security/rate-limit.ts) counts the
-- calls of every entry but POST /internal/v1/identity/link.
--
-- The files and the code they model:
--   Base, Json, Js      numbers, lists and texts; JSON values; what is taken from the runtime
--   Records, Keys       the records stored in Redis, and the prefixes of their keys
--   Redis               the commands of Redis with their documented laws; Redis/Memory is a store in
--                       memory that has them
--   Challenge           src/redis/challenge-store.ts: createChallenge, getChallenge,
--                       incrementAttempts, markChallengeUsed, deleteChallenge, and issuing and
--                       consuming codes and tickets
--   Session             src/oauth/oauth-session.store.ts: create, get, update, delete
--   RateLimit           src/security/rate-limit.ts and rate-limit-policy.ts
--   LinkTicket          src/security/link-ticket.ts: verifyAndConsume
--   Signing             src/security/internal-signing.ts: signedInternalHeaders (Payload) and
--                       verifyInternalSignature with its nonce cache
--   Traffic             the Redis commands of all these as one step relation with times, for what
--                       holds under every interleaving; Traffic/Desk is what the stores promise
--   Identity            src/identity/identity.service.ts over the table auth_identity of
--                       src/db/migrations/001_init.sql
--   Clients             src/clients/client.service.ts over the table client
--   Jwt                 src/jwt/authorization-jwt.service.ts: the claims that are signed (Claims); the
--                       published keys, with publicKeyToJwk of src/jwt/keys.ts, and the verifier (Keys)
--   Events              src/security/security-event.service.ts: the events, and posting one (Forward)
--   Service             the settings, the errors, the state of the handlers and the order of their
--                       steps
--   Exchange            src/exchange: the three handlers for Django (Code, Registration, Link)
--   Google              src/oauth/id-token-verifier.ts, google-id-token.service.ts and
--                       google-token-exchange.service.ts
--   Memo, Partner       what the caches of partners and of discovery documents share, and what they
--                       hold
--   Providers           src/oauth/oidc-provider-resolver.service.ts: resolve
--   Discovery           src/oauth/oidc-discovery.service.ts: fetchDiscovery
--   Oauth               src/oauth: GET /authorize (Authorize), GET /oauth/google/start (Start) and
--                       GET /oauth/google/callback (Callback) of oauth.controller.ts,
--                       oauth-outcome.service.ts (Outcome, Finish), status-redirect.ts, and
--                       oidc-identity-key.ts (Tenant)
--   Oauth/Enterprise    src/oauth/oidc-enterprise.controller.ts: its start and its callback, with
--                       oidc-token-exchange.service.ts and oidc-id-token.service.ts (Exchange)
--   Cookies             src/http/cookies.ts: serializeSessionCookie, and parseCookieHeader (Parse)
--   Web                 src/web: escapeHtml (Escape), renderPage (Page) and the status page (Status)
--   Env                 src/config/env.ts: loadConfig and printEnvCheck
--   Migrate, Pool       src/db/migrate.ts and src/db/pool.ts
--   Health              src/health/health.controller.ts: readiness
--   Tests               runs on concrete inputs
--
-- State and time. Redis is a record of operations and laws, so that the theorems hold of every store
-- with these laws. Each command happens at its own millisecond. Inside a store's operation a `gap`
-- is what other clients do between two commands. A handler is a function from the state of the
-- service to an answer or an error and a new state. A `Schedule` gives the time of each of its steps
-- and the gap before it, in which the state may change in any way, so every interleaving with other
-- handlers is covered. It also gives a second time for each step, that of another reading of the
-- clock: where verifyInternalSignature calls Date.now() twice, and where verifyAndConsume calls it
-- before its SET is done; nothing relates the two times but what a theorem assumes. An error that the source throws is a `Failure`; an unexpected one is answered
-- with 500. What a handler keeps in memory, the nonces and the two caches, is part of the state.
-- What fetch answers may depend on the time. The two tables of Postgres are lists of rows, each SQL
-- statement is a function on them, and the UNIQUE constraints refuse an insertion. No definition
-- uses fuel: all recursion is on lists, texts, numbers and values.
--
-- What is taken from elsewhere is an argument: HMAC and SHA-256, URL, Number and JSON of the runtime
-- (Js), base64url decoding with JSON.parse, signing and verifying by RS256 of jose, fetch, how
-- Postgres reads a uuid, and every random text. Numbers of JavaScript are modelled as far as
-- comparing them with whole numbers can tell them apart. Settings are whole numbers where the
-- handlers use them. The fields of a request body have the types that the source declares for them.
--
-- Not modelled: how NestJS and Fastify wire the parts together and set headers (src/main.ts,
-- src/app.module.ts), how random texts are drawn (src/oauth/pkce.ts), making a pair of keys and
-- importing a JWK (src/jwt/keys.ts), and the script that checks the environment of a production
-- host. Forwarding an event never affects an answer: the handlers keep their events as a list, and
-- Events/Forward models what posting one of them does. A response is its status and its location,
-- text or value.
pub mod Base
pub mod Records
pub mod Redis
pub mod Keys
pub mod Challenge
pub mod Session
pub mod RateLimit
pub mod Js
pub mod Json
pub mod LinkTicket
pub mod Signing
pub mod Traffic
pub mod Tests
pub mod Identity
pub mod Clients
pub mod Events
pub mod Service
pub mod Jwt
pub mod Exchange
pub mod Oauth
pub mod Cookies
pub mod Google
pub mod Memo
pub mod Partner
pub mod Providers
pub mod Discovery
pub mod Web
pub mod Env
pub mod Migrate
pub mod Health
pub mod Pool
