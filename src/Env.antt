-- ===== src/Env.antt =====
-- src/config/env.ts: reading the environment. `env` is process.env.
pub mod Required
use kisauth.Base.{
  ℕ, Bool, false, String, Option, none, some, List, [], ◌∷◌, ◌&&◌, not, str_eq, if◌then◌else◌, map,
}
use kisauth.Base.Int.{pos}
use kisauth.Base.Number.{Number, whole}
use kisauth.LinkTicket.{split}
use kisauth.Cookies.Parse.{trim}
use kisauth.Signing.{given, is_finite}

-- The errors that are thrown, with what their messages name.
pub data EnvError : Type 0 where
  missing malformed : String → EnvError

pub data Loading (A : Type 0) : Type 0 where
  loaded : A → Loading A
  refused : EnvError → Loading A

infixl 5 ◌>>=◌
abbrev pub ◌>>=◌ : {A B : Type 0} → Loading A → (A → Loading B) → Loading B
loaded a >>= next = next a
refused e >>= next = refused e

pub record PreviousKey : Type 0 where
  pub kid : String
  pub public_key_pem : String

-- KisAuthConfig
pub record KisAuthConfig : Type 0 where
  pub node_env : String
  pub port : Number
  pub base_url : String
  pub google_client_id : String
  pub google_client_secret : String
  pub google_redirect_uri : String
  pub database_url : String
  pub redis_url : String
  pub jwt_private_key_pem : String
  pub jwt_public_key_pem : String
  pub jwt_kid : String
  pub jwt_previous_keys : List PreviousKey
  pub internal_hmac_secret : String
  pub internal_signature_max_skew_seconds : Number
  pub django_security_event_url : String
  pub django_sso_config_url : String
  pub challenge_ttl_seconds : Number
  pub auth_code_ttl_seconds : Number
  pub challenge_max_attempts : Number

-- `value && value.trim()`
abbrev pub is_set : Option String → Bool
is_set none = false
is_set (some value) = not (str_eq value "") && not (str_eq (trim value) "")

abbrev pub or_text : String → Option String → String
or_text fallback none = fallback
or_text fallback (some value) = value

abbrev pub if_set : Option String → Option String
if_set value = if is_set value then value else none

-- `[kid, base64Pem] = entry.split(':')` where both are there and not empty.
abbrev pub two_parts : List String → Option (String × String)
two_parts (kid ∷ base64_pem ∷ rest) =
    if not (str_eq kid "") && not (str_eq base64_pem "") then some (kid, base64_pem) else none
two_parts _ = none

abbrev pub without_empty : List String → List String
without_empty [] = []
without_empty (entry ∷ rest) =
    let kept = without_empty rest in if str_eq entry "" then kept else entry ∷ kept

module _ (env : String → Option String) where
  unfoldable pub required : (name : String) → Loading String
  required name = elim (if_set (env name)) [
    | none ↦ refused (missing name)
    | some value ↦ loaded value
  ]

  unfoldable pub optional : (name fallback : String) → String
  optional name fallback = or_text fallback (if_set (env name))

  -- `to_number` is Number on a text.
  unfoldable pub int : (to_number : String → Number) → (name : String) → (fallback : ℕ) → Number
  int to_number name fallback = elim (given (env name)) [
    | none ↦ whole (pos fallback)
    | some raw ↦
        let parsed = to_number raw in if is_finite parsed then parsed else whole (pos fallback)
  ]

-- `decode` is Buffer.from(…, 'base64').toString('utf8').
module _ (decode : String → String) where
  unfoldable pub parse_entry : String → Loading PreviousKey
  parse_entry entry = elim (two_parts (split b':' entry)) [
    | none ↦ refused (malformed entry)
    | some parts ↦ loaded (record { kid = parts.0; public_key_pem = decode parts.1 })
  ]

  unfoldable pub parse_entries : List String → Loading (List PreviousKey)
  parse_entries [] = loaded []
  parse_entries (entry ∷ rest) =
      parse_entry entry >>= λ key. parse_entries rest >>= λ keys. loaded (key ∷ keys)

  unfoldable pub parse_previous_keys : Option String → Loading (List PreviousKey)
  parse_previous_keys raw = elim (if_set raw) [
    | none ↦ loaded []
    | some text ↦ parse_entries (without_empty (map trim (split b',' text)))
  ]

  module _ (to_number : String → Number) (env : String → Option String) where
    -- loadConfig, where nothing is cached.
    unfoldable pub load_config : Loading KisAuthConfig
    load_config = do
      base_url ← required env "KISAUTH_BASE_URL"
      google_client_id ← required env "GOOGLE_OAUTH_CLIENT_ID"
      google_client_secret ← required env "GOOGLE_OAUTH_CLIENT_SECRET"
      google_redirect_uri ← required env "GOOGLE_OAUTH_REDIRECT_URI"
      database_url ← required env "KISAUTH_DATABASE_URL"
      redis_url ← required env "KISAUTH_REDIS_URL"
      jwt_private_key_pem ← required env "KISAUTH_JWT_PRIVATE_KEY"
      jwt_public_key_pem ← required env "KISAUTH_JWT_PUBLIC_KEY"
      jwt_kid ← required env "KISAUTH_JWT_KID"
      jwt_previous_keys ← parse_previous_keys (env "KISAUTH_JWT_PREVIOUS_KEYS")
      internal_hmac_secret ← required env "KISAUTH_INTERNAL_HMAC_SECRET"
      loaded (record {
        node_env = optional env "NODE_ENV" "development";
        port = int env to_number "PORT" 4100;
        base_url = base_url;
        google_client_id = google_client_id;
        google_client_secret = google_client_secret;
        google_redirect_uri = google_redirect_uri;
        database_url = database_url;
        redis_url = redis_url;
        jwt_private_key_pem = jwt_private_key_pem;
        jwt_public_key_pem = jwt_public_key_pem;
        jwt_kid = jwt_kid;
        jwt_previous_keys = jwt_previous_keys;
        internal_hmac_secret = internal_hmac_secret;
        internal_signature_max_skew_seconds =
            int env to_number "INTERNAL_SIGNATURE_MAX_SKEW_SECONDS" 300;
        django_security_event_url = optional env "DJANGO_SECURITY_EVENT_URL" "";
        django_sso_config_url = optional env "DJANGO_SSO_CONFIG_URL" "";
        challenge_ttl_seconds = int env to_number "KISAUTH_CHALLENGE_TTL_SECONDS" 30;
        auth_code_ttl_seconds = int env to_number "KISAUTH_AUTH_CODE_TTL_SECONDS" 60;
        challenge_max_attempts = int env to_number "KISAUTH_CHALLENGE_MAX_ATTEMPTS" 5;
      })

    -- The module's `cached`, and what loadConfig returns and leaves there.
    unfoldable pub load_once : Option KisAuthConfig → Loading KisAuthConfig × Option KisAuthConfig
    load_once (some config) = (loaded config, some config)
    load_once none = elim load_config [
      | refused e ↦ (refused e, none)
      | loaded config ↦ (loaded config, some config)
    ]

-- REQUIRED_VAR_NAMES
abbrev pub required_var_names : List String
required_var_names =
    "KISAUTH_BASE_URL" ∷ "GOOGLE_OAUTH_CLIENT_ID" ∷ "GOOGLE_OAUTH_CLIENT_SECRET"
    ∷ "GOOGLE_OAUTH_REDIRECT_URI" ∷ "KISAUTH_DATABASE_URL" ∷ "KISAUTH_REDIS_URL"
    ∷ "KISAUTH_JWT_PRIVATE_KEY" ∷ "KISAUTH_JWT_PUBLIC_KEY" ∷ "KISAUTH_JWT_KID"
    ∷ "KISAUTH_INTERNAL_HMAC_SECRET" ∷ []

-- What printEnvCheck prints: each name, and whether SET stands behind it.
unfoldable pub env_check : (env : String → Option String) → List (String × Bool)
env_check env = map (λ name. (name, is_set (env name))) required_var_names
