-- ===== src/Partner.antt =====
-- What the service learns of an enterprise partner: OidcPartnerConfig of
-- src/oauth/oidc-provider-resolver.service.ts and OidcDiscoveryDocument of
-- src/oauth/oidc-discovery.service.ts; and the responses of fetch that they are read from.
use kisauth.Base.{ℕ, Bool, String, Option, ◌&&◌, leb, ltb}
use kisauth.Json.{Json}

pub record OidcPartnerConfig : Type 0 where
  pub partner_id : String
  pub partner_slug : String
  pub provider : String
  pub issuer : String
  pub client_id : String
  pub client_secret : String
  pub discovery_url : String

pub record DiscoveryDocument : Type 0 where
  pub authorization_endpoint : String
  pub token_endpoint : String
  pub jwks_uri : String
  pub issuer : Option String

-- A response of fetch: its status, and what `response.json()` gives, `none` where it throws.
pub record Answer : Type 0 where
  pub status : ℕ
  pub body : Option Json

-- `response.ok`
abbrev pub is_ok : Answer → Bool
is_ok answer = leb 200 answer.status && ltb answer.status 300
