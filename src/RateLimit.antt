-- ===== src/RateLimit.antt =====
-- src/security/rate-limit.ts and src/security/rate-limit-policy.ts: fixed windows counted in Redis.
pub mod Window
use kisauth.Base.{ℕ, Bool, String, Option, some, ◌==◌, leb, if◌then◌else◌}
use kisauth.Base.Texts.{◌++◌}
use kisauth.Records.{◌>>=◌}
use kisauth.Keys.{rate_limit_prefix}
use kisauth.Redis.{Redis}

pub record RateLimitResult : Type 0 where
  pub allowed : Bool
  pub count : ℕ
  pub limit : ℕ

pub record Policy : Type 0 where
  pub scope : String
  pub limit : ℕ
  pub window_seconds : ℕ

abbrev policy : String → ℕ → ℕ → Policy
policy scope limit window_seconds = record {
  scope = scope;
  limit = limit;
  window_seconds = window_seconds;
}

-- RATE_LIMITS
pub data Limit : Type 0 where
  authorize oauth_google_start oauth_google_callback exchange_per_client exchange_per_ip : Limit
  registration_exchange_per_client registration_exchange_per_ip : Limit
  oauth_enterprise_start oauth_enterprise_callback : Limit

unfoldable pub rate_limits : Limit → Policy
rate_limits authorize = policy "authorize" 30 60
rate_limits oauth_google_start = policy "oauth_google_start" 30 60
rate_limits oauth_google_callback = policy "oauth_google_callback" 10 60
rate_limits exchange_per_client = policy "exchange_client" 120 60
rate_limits exchange_per_ip = policy "exchange_ip" 60 60
rate_limits registration_exchange_per_client = policy "registration_exchange_client" 60 60
rate_limits registration_exchange_per_ip = policy "registration_exchange_ip" 30 60
rate_limits oauth_enterprise_start = policy "oauth_enterprise_start" 30 60
rate_limits oauth_enterprise_callback = policy "oauth_enterprise_callback" 10 60

-- `${KEY_PREFIX}${scope}:${identifier}`
abbrev pub limit_key : String → String → String
limit_key scope identifier = rate_limit_prefix ++ (scope ++ (":" ++ identifier))

module _ (r : Redis) where
  open r use {State, incr, expire}

  -- INCR_SCRIPT, which Redis runs as one command; `none` is an error reply.
  unfoldable pub incr_script : ℕ → String → ℕ → State → Option (ℕ × State)
  incr_script now key window_seconds σ = do
    hit ← incr now key σ
    some (hit.0, if hit.0 == 1 then expire now key window_seconds hit.1 else hit.1)

  unfoldable pub check :
      ℕ
      → (scope identifier : String) (limit window_seconds : ℕ) → State
      → Option (RateLimitResult × State)
  unfolding incr_script
  check now scope identifier limit window_seconds σ = do
    hit ← incr_script now (limit_key scope identifier) window_seconds σ
    some (record { allowed = leb hit.0 limit; count = hit.0; limit = limit }, hit.1)
