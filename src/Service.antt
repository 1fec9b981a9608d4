-- ===== src/Service.antt =====
-- What the handlers of the service share: the configuration (src/config/env.ts), the state they
-- work on, the errors they throw, and the order of their steps. Before its k-th step a handler
-- waits for a `gap`, in which anything may happen to the state, and step k runs at the time `at k`.
-- Where step k reads Date.now() before, ahead of a second reading or of a command of Redis, it reads
-- `clock k`.
-- `emit` is called without awaiting it: the model keeps the list of events.
pub mod Laws
use kisauth.Base.{ℕ, Bool, String, Option, none, some, List, [], ◌∷◌, if◌then◌else◌}
use kisauth.Redis.{Redis}
use kisauth.RateLimit.{Policy, Limit, rate_limits, RateLimitResult, check}
use kisauth.Signing.{Cache}
use kisauth.Identity.{Rows}
use kisauth.Clients.{RegisteredClient}
use kisauth.Events.{SecurityEvent}
use kisauth.Env.{PreviousKey}
use kisauth.Memo.{Memo}
use kisauth.Partner.{OidcPartnerConfig, DiscoveryDocument}

-- The settings of KisAuthConfig that the modelled handlers read. Times are whole seconds; `is_production` is
-- `nodeEnv === 'production'`.
pub record Config : Type 0 where
  pub is_production : Bool
  pub base_url : String
  pub google_client_id : String
  pub google_client_secret : String
  pub google_redirect_uri : String
  pub jwt_private_key_pem : String
  pub jwt_public_key_pem : String
  pub jwt_kid : String
  pub jwt_previous_keys : List PreviousKey
  pub internal_hmac_secret : String
  pub internal_signature_max_skew_seconds : ℕ
  pub django_security_event_url : String
  pub django_sso_config_url : String
  pub challenge_ttl_seconds : ℕ
  pub auth_code_ttl_seconds : ℕ
  pub challenge_max_attempts : ℕ

-- The exceptions: 429, 401, 400 and 409, and any other error, which is answered with 500.
pub data Failure : Type 0 where
  too_many_requests unauthorized bad_request conflict internal_error : Failure

pub data Outcome (A : Type 0) : Type 0 where
  reply : A → Outcome A
  failed : Failure → Outcome A

module _ (r : Redis) where
  pub record World : Type 0 where
    pub redis : r.State
    pub nonces : Cache
    pub clients : List RegisteredClient
    pub identities : Rows
    pub providers : Memo OidcPartnerConfig
    pub documents : Memo DiscoveryDocument
    pub events : List SecurityEvent

  pub record Schedule : Type 0 where
    pub at : ℕ → ℕ
    pub clock : ℕ → ℕ
    pub gap : ℕ → World → World

  abbrev pub Handler : Type 0 → Type 0
  Handler A = World → Outcome A × World

-- The next step of a handler, unless an error was thrown.
abbrev pub follow :
    {r : Redis} {A B : Type 0} → Outcome A × World r → (A → Handler r B) → Outcome B × World r
follow (reply a, w) next = next a w
follow (failed e, w) next = (failed e, w)

infixl 5 ◌>>=◌
unfoldable pub ◌>>=◌ : {r : Redis} {A B : Type 0} → Handler r A → (A → Handler r B) → Handler r B
(m >>= next) w = follow (m w) next

abbrev pub pure : {r : Redis} {A : Type 0} → A → Handler r A
pure a w = (reply a, w)

abbrev pub throw : {r : Redis} {A : Type 0} → Failure → Handler r A
throw e w = (failed e, w)

abbrev pub emit : {r : Redis} → SecurityEvent → Handler r Unit
emit event w = (reply tt, record w { events = event ∷ w.events })

module _ {r : Redis} (sch : Schedule r) where
  unfoldable pub counted_within : (k : ℕ) → Limit → String → Handler r RateLimitResult
  counted_within k limit identifier w =
      let now = sch.gap k w in
      let p = rate_limits limit in
      elim (check r (sch.at k) p.scope identifier p.limit p.window_seconds now.redis) [
        | none ↦ (failed internal_error, now)
        | some (result, σ) ↦ (reply result, record now { redis = σ })
      ]

  -- `rateLimiter.check(RATE_LIMITS.….scope, identifier, …)` and the exception behind it.
  unfoldable pub limit_rate : (k : ℕ) → Limit → String → Handler r Unit
  limit_rate k limit identifier = do
    result ← counted_within k limit identifier
    if result.allowed then pure tt else throw too_many_requests
