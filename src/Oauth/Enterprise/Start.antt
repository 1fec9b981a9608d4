-- ===== src/Oauth/Enterprise/Start.antt =====
-- GET /oauth/enterprise/:partnerSlug/start: src/oauth/oidc-enterprise.controller.ts.
use kisauth.Base.{String, Option, none, some, List, [], ◌∷◌}
use mathlib.Core.Option
use kisauth.Js.{Js}
use kisauth.Redis.{Redis}
use kisauth.Records.{OAuthSession}
use kisauth.RateLimit.{oauth_enterprise_start}
use kisauth.Signing.{given}
use kisauth.Partner.{OidcPartnerConfig, DiscoveryDocument}
use kisauth.Service.{Config, Schedule, Handler, internal_error, ◌>>=◌, pure, throw, limit_rate}
use kisauth.Oauth.{set_params}
use kisauth.Oauth.Start.{with_verifier, keep_verifier}
use kisauth.Oauth.Enterprise.{
  Outside, enterprise_redirect_uri, partner_session, resolve_or_fail, discover_or_fail,
}

-- The parameters of the URL at the partner's provider.
abbrev pub partner_params :
    Js
    → OidcPartnerConfig
    → (redirect_uri : String) → OAuthSession
    → (code_verifier : String) → List (String × String)
partner_params js partner redirect_uri s code_verifier =
    ("client_id", partner.client_id)
    ∷ ("redirect_uri", redirect_uri)
    ∷ ("response_type", "code")
    ∷ ("scope", "openid email profile")
    ∷ ("state", s.state)
    ∷ ("nonce", s.nonce)
    ∷ ("code_challenge", js.sha256_base64url code_verifier)
    ∷ ("code_challenge_method", "S256")
    ∷ []

unfoldable pub partner_url :
    Js
    → Config
    → (partner_slug : String) → OidcPartnerConfig
    → DiscoveryDocument
    → OAuthSession
    → (code_verifier : String) → Option String
partner_url js config partner_slug partner doc s code_verifier =
    elim (js.parse_url doc.authorization_endpoint) [
      | none ↦ none
      | some url ↦
          Option.map
            (λ redirect_uri.
              js.href (set_params js (partner_params js partner redirect_uri s code_verifier) url))
            (enterprise_redirect_uri js config partner_slug)
    ]

module _ (js : Js) (out : Outside js) {r : Redis} (sch : Schedule r) (config : Config)
    (nonce : String) (partner_slug ip : String) where
  unfoldable pub to_partner :
      OidcPartnerConfig
      → DiscoveryDocument
      → OAuthSession
      → (code_verifier : String) → Handler r String
  to_partner partner doc s code_verifier =
      elim (partner_url js config partner_slug partner doc s code_verifier) [
        | none ↦ throw internal_error
        | some url ↦ pure url
      ]

  unfoldable pub start_with : (code_verifier : String) → String × OAuthSession → Handler r String
  start_with code_verifier (id, found) = do
    partner ← resolve_or_fail js out sch config nonce partner_slug ip 2 id found
    doc ← discover_or_fail js out sch config nonce partner_slug ip 4 id found partner.discovery_url
    _ ← keep_verifier js sch config 6 id (with_verifier found code_verifier)
    to_partner partner doc found code_verifier

  -- `code_verifier` is base64url(randomBytes(64)); `nonce` is that of the request to Django.
  unfoldable pub handle_enterprise_start :
      (code_verifier : String) → (cookie : Option String) → Handler r String
  handle_enterprise_start code_verifier cookie = do
    _ ← limit_rate sch 0 oauth_enterprise_start ip
    found ← partner_session js out sch config nonce partner_slug ip (given cookie)
    start_with code_verifier found
