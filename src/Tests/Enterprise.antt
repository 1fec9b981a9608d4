-- ===== src/Tests/Enterprise.antt =====
-- A browser at an enterprise partner, on the state in memory.
use kisauth.Base.{ℕ, String, Option, some, none, ◌≡◌, ◌<◌, ◌+◌, refl, true, arith, ◌≤◌}
use kisauth.Json.{Json, str, obj, field, end}
use kisauth.Redis.Memory.{memory, nothing}
use kisauth.Records.{OAuthSession}
use kisauth.RateLimit.{check, rate_limits}
use kisauth.Session.{create, get_session, delete}
use kisauth.Challenge.{issue_registration_ticket}
use kisauth.Identity.{find_by_provider_subject}
use kisauth.Signing.{signed_internal_headers}
use kisauth.Signing.Payload.{path_with_query}
use kisauth.Memo.{fresh, keep}
use kisauth.Partner.{OidcPartnerConfig, Answer}
use kisauth.Providers.{
  resolved, complete_config, read_body, read_answer, send, ask, keep_resolved, resolve,
}
use kisauth.Providers.Current.{FromDjango, IsFromDjango, resolve_recent, resolve-IsFromDjango}
use kisauth.Memo.{IsTrue-later}
use kisauth.Discovery.{
  complete_document, read_document, ask_document, keep_document, fetch_discovery,
}
use kisauth.Service.{World, ◌>>=◌, counted_within, limit_rate}
use kisauth.Service.Laws.{Returns}
use kisauth.Google.{verify_oidc_id_token, read_claims}
use kisauth.Oauth.{status_redirect_url, location, redirect, delete_session}
use kisauth.Oauth.Start.{read_session}
use kisauth.Oauth.Finish.{finalize_registration, register_unless_known, issue_ticket}
use kisauth.Oauth.Callback.{CallbackRequest}
use kisauth.Oauth.Tenant.{composite_oidc_subject}
use kisauth.Oauth.Enterprise.{
  Outside, enterprise_redirect_uri, keep_to_partner, partner_session, config_or_fail,
  resolve_or_fail, document_or_fail, discover_or_fail,
}
use kisauth.Oauth.Enterprise.Exchange.{exchange_partner_code, verify_partner, ask_partner}
use kisauth.Oauth.Enterprise.Callback.{
  find_partner_identity, finish_partner_known, search_partner, finish_partner, settle,
  redeem_partner_code, go_on_partner, answer_partner, handle_enterprise_callback,
}
use kisauth.Oauth.Enterprise.Answered.{AnsweredFor, enterprise_callback-AnsweredFor}
use kisauth.Tests.Runtime.{js}
use kisauth.Tests.Exchange.{as_is, config, quiet, world}
use kisauth.Tests.Oauth.{randoms, session}
use kisauth.Tests.Callback.{claims}
use kisauth.Oauth.Enterprise.Consumed.{enterprise_callback_consumes}

abbrev partner_body : Json
partner_body = obj (
    field "partner_id" (str "7") (
      field "partner_slug" (str "acme") (
        field "issuer" (str "idp") (
          field "client_id" (str "pc")
            (field "client_secret" (str "ps") (field "discovery_url" (str "https://idp/d") end))))))

abbrev document_body : Json
document_body = obj (
    field "authorization_endpoint" (str "https://idp/auth") (
      field "token_endpoint" (str "https://idp/token")
        (field "jwks_uri" (str "https://idp/k") end)))

abbrev django : ℕ → String → String × String × String → Option Answer
django t url headers = some (record { status = 200; body = some partner_body })

abbrev outside : Outside js
outside = record {
  django = django;
  document = λ t url. some (record { status = 200; body = some document_body });
  post = λ url form.
      some (record { is_ok = true; body = some (obj (field "id_token" (str "t") end)) });
  jwt_verify = λ keys token issuers audience. some claims;
  uuid = as_is;
}

abbrev acme_session : OAuthSession
acme_session = record session {
  purpose = "registration";
  code_verifier = some "v";
  partner_slug = some "acme";
}

abbrev waiting : World memory
waiting = world (create memory 1000 "sid" acme_session nothing).1

abbrev partner_location : String
partner_location =
    "https://idp/authclient_idpcredirect_uri/oauth/enterprise/acme/callbackresponse_typecodescopeopenid email profilestatestnoncenocode_challengev2code_challenge_methodS256"

abbrev callback : CallbackRequest
callback = record {
  cookie = some "sid";
  code = some "icode";
  state = some "st";
  error = none;
  ip = "::1";
}

abbrev registered_at : String
registered_at = "/statusstateregistration_continueclient_redirecthttps://app/cbcodecodestates"

answered :
    Returns
      (handle_enterprise_callback js outside quiet config randoms "r1" "acme" callback)
      waiting
      registered_at
      (handle_enterprise_callback js outside quiet config randoms "r1" "acme" callback waiting).1
unfolding handle_enterprise_callback limit_rate counted_within check rate_limits partner_session
    read_session get_session create keep_to_partner answer_partner go_on_partner redeem_partner_code
    resolve_or_fail resolve fresh ask send signed_internal_headers path_with_query read_answer
    read_body complete_config keep_resolved keep config_or_fail discover_or_fail fetch_discovery
    ask_document read_document complete_document keep_document document_or_fail ask_partner
    exchange_partner_code enterprise_redirect_uri verify_partner verify_oidc_id_token read_claims
    settle composite_oidc_subject finish_partner search_partner find_partner_identity
    find_by_provider_subject finish_partner_known finalize_registration register_unless_known
    issue_ticket issue_registration_ticket delete_session delete redirect location
    status_redirect_url ◌>>=◌
answered = refl

enterprise_callback-AnsweredFor_example :
    AnsweredFor js outside quiet config randoms "r1" "acme" callback registered_at
      (handle_enterprise_callback js outside quiet config randoms "r1" "acme" callback waiting).1
enterprise_callback-AnsweredFor_example =
    enterprise_callback-AnsweredFor js outside quiet config randoms "r1" "acme" callback waiting _ _
      answered

abbrev acme : OidcPartnerConfig
acme = record {
  partner_id = "7";
  partner_slug = "acme";
  provider = "oidc";
  issuer = "idp";
  client_id = "pc";
  client_secret = "ps";
  discovery_url = "https://idp/d";
}

looked_up :
    Returns
      (resolve js django config "r1" quiet 2 "acme")
      waiting
      (resolved acme)
      (resolve js django config "r1" quiet 2 "acme" waiting).1
unfolding resolve fresh ask send signed_internal_headers path_with_query read_answer read_body
    complete_config keep_resolved keep
looked_up = refl

stays :
    (j t : ℕ) (u : World memory)
    → t ≤ 2000
    → IsFromDjango js django config 5 t u
    → IsFromDjango js django config 5 2000 u
stays j t u past h =
    IsTrue-later (FromDjango js django config) (5 + 60000) t 2000 u.providers past h

resolve_recent_example :
    (asked : ℕ) × (asked ≤ 2000)
    × (2000 < asked + (5 + 60000))
    × FromDjango js django config "acme" asked acme
resolve_recent_example =
    resolve_recent js django config "r1" 5 quiet 2 "acme" (omega arith) (omega arith) stays 1000
      waiting _ acme (omega arith) tt looked_up

resolve-IsFromDjango_example :
    IsFromDjango js django config 5 2000 (resolve js django config "r1" quiet 2 "acme" waiting).1
resolve-IsFromDjango_example =
    resolve-IsFromDjango js django config "r1" 5 quiet 2 "acme" (omega arith) (omega arith) stays
      1000 waiting (omega arith) tt

enterprise_callback_consumes_example :
    get_session memory 3000 "sid"
      (handle_enterprise_callback js outside quiet config randoms "r1" "acme" callback
        waiting).1.redis
    ≡ none
enterprise_callback_consumes_example =
    enterprise_callback_consumes js outside quiet config randoms "r1" "acme" callback "sid"
      (λ k w gone. gone) waiting _ _ 3000 refl (λ j h. omega arith) answered
