-- ===== src/Session.antt =====
-- src/oauth/oauth-session.store.ts: the browser's OAuth request in Redis.
use kisauth.Base.{ℕ, String, Option, none, some}
use kisauth.Base.Texts.{◌++◌}
use kisauth.Records.{OAuthSession, session, as_session, ◌>>=◌}
use kisauth.Keys.{session_prefix}
use kisauth.Redis.{Redis}
use kisauth.Challenge.{positive}

abbrev pub session_ttl_seconds : ℕ
session_ttl_seconds = 600

-- `ttl > 0 ? ttl : SESSION_TTL_SECONDS`
abbrev pub or_full : Option ℕ → ℕ
or_full none = session_ttl_seconds
or_full (some n) = n

module _ (r : Redis) where
  open r use {State, get, set_ex, ttl, del}

  unfoldable pub create : ℕ → (random : String) → OAuthSession → State → String × State
  create now random s σ =
      (random, set_ex now (session_prefix ++ random) (session s) session_ttl_seconds σ)

  unfoldable pub get_session : ℕ → String → State → Option OAuthSession
  get_session now id σ = do raw ← get now (session_prefix ++ id) σ; as_session raw

  -- TTL and SET are two commands, with a gap between.
  unfoldable pub update : (gap : State → State) (t₁ t₂ : ℕ) → String → OAuthSession → State → State
  update gap t₁ t₂ id s σ =
      set_ex t₂ (session_prefix ++ id) (session s)
        (or_full (positive (ttl t₁ (session_prefix ++ id) σ))) (gap σ)

  unfoldable pub delete : String → State → State
  delete id = del (session_prefix ++ id)
