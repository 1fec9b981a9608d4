-- ===== src/Oauth/Enterprise/Started.antt =====
-- What a redirection to a partner's provider by src/oauth/oidc-enterprise.controller.ts rests on, and
-- what it leaves in the session.
use kisauth.Base.{ℕ, ◌≤◌, String, Option, some, ◌≡◌}
use kisauth.Js.{Js}
use kisauth.Redis.{Redis}
use kisauth.Records.{OAuthSession}
use kisauth.RateLimit.{oauth_enterprise_start}
use kisauth.Session.{get_session}
use kisauth.Partner.{OidcPartnerConfig, DiscoveryDocument}
use kisauth.Providers.{resolved, resolve}
use kisauth.Discovery.{fetch_discovery}
use kisauth.Service.{Config, World, Schedule}
use kisauth.Service.Laws.{Returns}
use kisauth.Exchange.Admission.{IsAllowed}
use kisauth.Oauth.Start.{with_verifier}
use kisauth.Oauth.Started.{requesting}
use kisauth.Oauth.Enterprise.{Outside, enterprise_redirect_uri}

module _ (js : Js) (out : Outside js) {r : Redis} (sch : Schedule r) (config : Config)
    (nonce partner_slug ip : String) where
  -- The URL is that of the authorization endpoint of a discovery document, with the client of the
  -- partner, the partner's callback, the state and the nonce of the session and the challenge of the
  -- verifier.
  abbrev pub IsPartnerRequest :
      OidcPartnerConfig → DiscoveryDocument → OAuthSession → (code_verifier url : String) → Type 0
  IsPartnerRequest partner doc s code_verifier url =
      (page : js.Url) × (callback : String) × (js.parse_url doc.authorization_endpoint ≡ some page)
      × (enterprise_redirect_uri js config partner_slug ≡ some callback)
      × (url
          ≡ js.href (
              requesting js sch config partner.client_id callback s.state s.nonce code_verifier
                page))

  -- The cookie names a live session of this partner, within the limit; the browser goes to the
  -- authorization endpoint of the partner's provider, with the client of the partner, the state and
  -- the nonce of the session and the challenge of the verifier; and the session that is read from
  -- then on is this one with the verifier.
  pub record StartedFor (code_verifier : String) (cookie : Option String) (w : World r)
      (url : String) (w' : World r) : Type 0 where
    pub session_id : String
    pub found : OAuthSession
    pub partner : OidcPartnerConfig
    pub doc : DiscoveryDocument
    pub before : World r
    pub asking : World r
    pub reading : World r
    pub keeping : World r
    pub allowed : IsAllowed js sch config 0 oauth_enterprise_start ip w
    pub has_cookie : cookie ≡ some session_id
    pub live : get_session r (sch.at 1) session_id (sch.gap 1 before).redis ≡ some found
    pub same_partner : found.partner_slug ≡ some partner_slug
    pub is_partner :
        Returns
          (resolve js out.django config nonce sch 2 partner_slug)
          asking
          (resolved partner)
          reading
    pub is_document :
        Returns
          (fetch_discovery out.document sch 4 partner.discovery_url)
          reading
          (some doc)
          keeping
    pub leads : IsPartnerRequest partner doc found code_verifier url
    pub kept :
        (t : ℕ) (s : OAuthSession)
        → sch.at 7 ≤ t
        → get_session r t session_id w'.redis ≡ some s
        → s ≡ with_verifier found code_verifier
