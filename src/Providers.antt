-- ===== src/Providers.antt =====
-- src/oauth/oidc-provider-resolver.service.ts: the configuration of an enterprise partner, which
-- Django is asked for and which is kept for a minute.
pub mod Current
use kisauth.Base.{ℕ, ◌+◌, String, Option, none, some, ◌==◌, not, if◌then◌else◌}
use kisauth.Js.{Js}
use kisauth.Json.{Json, null, string_field}
use kisauth.Records.{◌>>=◌}
use kisauth.Redis.{Redis}
use kisauth.Signing.{given, signed_internal_headers}
use kisauth.Memo.{fresh, keep}
use kisauth.Partner.{OidcPartnerConfig, Answer, is_ok}
use kisauth.Service.{Config, World, Schedule, Handler, Outcome, reply, failed, internal_error}

pub data Reason : Type 0 where
  not_found misconfigured unauthorized unavailable request_failed : Reason

-- `thrown` is an exception: a URL that does not parse, or a body that is `null`.
pub data ResolveResult : Type 0 where
  resolved : OidcPartnerConfig → ResolveResult
  unresolved : Reason → ResolveResult
  thrown : ResolveResult

abbrev pub cache_ttl_ms : ℕ
cache_ttl_ms = 60000

-- `typeof provider === 'string' ? provider : 'oidc'`
abbrev pub or_oidc : Option String → String
or_oidc none = "oidc"
or_oidc (some provider) = provider

-- The configuration of a body with every field that is required.
unfoldable pub complete_config : Json → Option OidcPartnerConfig
complete_config body = do
  partner_id ← string_field "partner_id" body
  partner_slug ← string_field "partner_slug" body
  issuer ← string_field "issuer" body
  client_id ← string_field "client_id" body
  client_secret ← string_field "client_secret" body
  discovery_url ← string_field "discovery_url" body
  some (record {
    partner_id = partner_id;
    partner_slug = partner_slug;
    provider = or_oidc (string_field "provider" body);
    issuer = issuer;
    client_id = client_id;
    client_secret = client_secret;
    discovery_url = discovery_url;
  })

abbrev pub or_misconfigured : Option OidcPartnerConfig → ResolveResult
or_misconfigured none = unresolved misconfigured
or_misconfigured (some partner) = resolved partner

unfoldable pub read_body : Option Json → ResolveResult
read_body none = unresolved request_failed
read_body (some null) = thrown
read_body (some body) = or_misconfigured (complete_config body)

unfoldable pub read_answer : Answer → ResolveResult
read_answer answer =
    if answer.status == 404
    then unresolved not_found
    else if answer.status == 409
    then unresolved misconfigured
    else if answer.status == 401
    then unresolved unauthorized
    else if answer.status == 503
    then unresolved unavailable
    else if not (is_ok answer)
    then unresolved request_failed
    else read_body answer.body

-- `django` is fetch at Django, at the time of the request, with the three headers; `none` where it
-- throws. `nonce` is the random nonce of the headers.
module _ (js : Js)
    (django : (at : ℕ) → (url : String) → (headers : String × String × String) → Option Answer)
    (config : Config) (nonce : String) where
  unfoldable pub send : (at : ℕ) → (url : String) → ResolveResult
  send at url =
      elim (signed_internal_headers js at nonce "GET" url none config.internal_hmac_secret) [
        | none ↦ thrown
        | some headers ↦ elim (django at url headers) [
          | none ↦ unresolved request_failed
          | some answer ↦ read_answer answer
        ]
      ]

  -- The part of resolve that asks Django.
  unfoldable pub ask : (at : ℕ) → (partner_slug : String) → ResolveResult
  ask at partner_slug = elim (given (some config.django_sso_config_url)) [
    | none ↦ unresolved unavailable
    | some base ↦ elim (js.parse_url base) [
      | none ↦ thrown
      | some url ↦ send at (js.href (js.set_param "partner_slug" partner_slug url))
    ]
  ]

  module _ {r : Redis} (sch : Schedule r) where
    -- Only what was resolved is kept.
    unfoldable pub keep_resolved :
        (k : ℕ) → (partner_slug : String) → ResolveResult → Handler r ResolveResult
    keep_resolved k partner_slug (resolved partner) w =
        let now = sch.gap k w in
        (
          reply (resolved partner),
          record now {
            providers = keep (sch.at k) cache_ttl_ms partner_slug partner now.providers;
          },
        )
    keep_resolved k partner_slug (unresolved reason) w = (reply (unresolved reason), sch.gap k w)
    keep_resolved k partner_slug thrown w = (failed internal_error, sch.gap k w)

    -- Step k looks into the cache and asks; step k + 1 has the answer.
    unfoldable pub resolve : (k : ℕ) → (partner_slug : String) → Handler r ResolveResult
    resolve k partner_slug w =
        let now = sch.gap k w in
        elim (fresh (sch.at k) partner_slug now.providers) [
          | some partner ↦ (reply (resolved partner), now)
          | none ↦ keep_resolved (k + 1) partner_slug (ask (sch.at k) partner_slug) now
        ]
