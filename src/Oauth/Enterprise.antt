-- ===== src/Oauth/Enterprise.antt =====
-- src/oauth/oidc-enterprise.controller.ts: what GET /oauth/enterprise/:partnerSlug/start and
-- GET /oauth/enterprise/:partnerSlug/callback share.
pub mod Start
pub mod Exchange
pub mod Callback
pub mod Admitted
pub mod Finished
pub mod Answered
pub mod Consumed
pub mod Started
use kisauth.Base.{
  ℕ, ◌+◌, Bool, false, String, Option, none, some, List, [], ◌∷◌, str_eq, if◌then◌else◌,
}
use kisauth.Base.Texts.{◌++◌}
use mathlib.Core.Option
use kisauth.Js.{Js}
use kisauth.Json.{Json}
use kisauth.Records.{OAuthSession}
use kisauth.Redis.{Redis}
use kisauth.Events.{EventType, SecurityEvent, failure, oauth_enterprise_config_failed}
use kisauth.Google.{Response}
use kisauth.Partner.{OidcPartnerConfig, DiscoveryDocument, Answer}
use kisauth.Providers.{
  Reason, not_found, misconfigured, unauthorized, unavailable, request_failed, ResolveResult,
  resolved, unresolved, thrown, resolve,
}
use kisauth.Discovery.{fetch_discovery}
use kisauth.Service.{
  Config, Schedule, Handler, bad_request, internal_error, ◌>>=◌, pure, throw, emit,
}
use kisauth.Oauth.{delete_session}
use kisauth.Oauth.Start.{read_session}

-- What enterprise sign-in takes from elsewhere: fetch at Django, at a discovery URL and at a token
-- endpoint, jwtVerify of jose with the keys behind a URL, and how Postgres reads a uuid.
pub record Outside (js : Js) : Type 0 where
  pub django : (at : ℕ) → (url : String) → (headers : String × String × String) → Option Answer
  pub document : (at : ℕ) → (url : String) → Option Answer
  pub post : (url : String) → (form : List (String × String)) → Option Response
  pub jwt_verify :
      (keys : js.Url)
      → (token : String) → (issuers : List String) → (audience : String) → Option Json
  pub uuid : String → Option String

abbrev pub partner_event :
    EventType → OAuthSession → (reason ip partner_slug : String) → SecurityEvent
partner_event event_type session reason ip partner_slug = record {
  event_type = event_type;
  outcome = failure;
  kis_user_id = none;
  client_id = some session.client_id;
  reason = some reason;
  ip = some ip;
  metadata = ("provider", some "oidc") ∷ ("partner_slug", some partner_slug) ∷ [];
}

-- The reasons of OidcProviderResolveResult.
abbrev pub reason_text : Reason → String
reason_text not_found = "not_found"
reason_text misconfigured = "misconfigured"
reason_text unauthorized = "unauthorized"
reason_text unavailable = "unavailable"
reason_text request_failed = "request_failed"

-- `session.partnerSlug === partnerSlug`
abbrev pub is_slug : String → Option String → Bool
is_slug partner_slug none = false
is_slug partner_slug (some slug) = str_eq slug partner_slug

-- enterpriseRedirectUri; `none` is a URL that does not parse.
unfoldable pub enterprise_redirect_uri : Js → Config → (partner_slug : String) → Option String
enterprise_redirect_uri js config partner_slug = Option.map js.href (
    js.new_url ("/oauth/enterprise/" ++ (js.encode_component partner_slug ++ "/callback"))
      config.base_url)

module _ (js : Js) (out : Outside js) {r : Redis} (sch : Schedule r) (config : Config)
    (nonce : String) (partner_slug ip : String) where
  -- The session of the cookie, if it was created for this partner. The tests stand first: where
  -- they fail, either handler answers with the same 400 and does nothing else, whatever else the
  -- request carries.
  unfoldable pub keep_to_partner : String × OAuthSession → Handler r (String × OAuthSession)
  keep_to_partner (id, session) =
      if is_slug partner_slug session.partner_slug then pure (id, session) else throw bad_request

  unfoldable pub partner_session : (cookie : Option String) → Handler r (String × OAuthSession)
  partner_session cookie = do found ← read_session js sch config cookie; keep_to_partner found

  -- The event, the deletion and the exception for a partner that is not set up.
  unfoldable pub fail_config :
      {A : Type 0} → (k : ℕ) → (session_id reason : String) → OAuthSession → Handler r A
  fail_config k session_id reason session = do
    _ ← emit (partner_event oauth_enterprise_config_failed session reason ip partner_slug)
    _ ← delete_session js sch config k session_id
    throw bad_request

  unfoldable pub config_or_fail :
      (k : ℕ) → (session_id : String) → OAuthSession → ResolveResult → Handler r OidcPartnerConfig
  config_or_fail k session_id session (resolved partner) = pure partner
  config_or_fail k session_id session (unresolved reason) =
      fail_config k session_id ("sso_config_" ++ reason_text reason) session
  config_or_fail k session_id session thrown = throw internal_error

  -- Steps k and k + 1 are the lookup's, k + 2 the deletion's.
  unfoldable pub resolve_or_fail :
      (k : ℕ) → (session_id : String) → OAuthSession → Handler r OidcPartnerConfig
  resolve_or_fail k session_id session = do
    result ← resolve js out.django config nonce sch k partner_slug
    config_or_fail (k + 2) session_id session result

  unfoldable pub document_or_fail :
      (k : ℕ)
      → (session_id : String) → OAuthSession
      → Option DiscoveryDocument
      → Handler r DiscoveryDocument
  document_or_fail k session_id session none = fail_config k session_id "discovery_failed" session
  document_or_fail k session_id session (some doc) = pure doc

  unfoldable pub discover_or_fail :
      (k : ℕ)
      → (session_id : String) → OAuthSession
      → (discovery_url : String) → Handler r DiscoveryDocument
  discover_or_fail k session_id session discovery_url = do
    found ← fetch_discovery out.document sch k discovery_url
    document_or_fail (k + 2) session_id session found
