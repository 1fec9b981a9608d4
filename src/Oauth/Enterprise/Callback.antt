-- ===== src/Oauth/Enterprise/Callback.antt =====
-- GET /oauth/enterprise/:partnerSlug/callback: src/oauth/oidc-enterprise.controller.ts.
use kisauth.Base.{String, Option, none, some, [], ◌∷◌, str_eq, if◌then◌else◌}
use kisauth.Js.{Js}
use kisauth.Redis.{Redis}
use kisauth.Records.{OAuthSession}
use kisauth.RateLimit.{oauth_enterprise_callback}
use kisauth.Signing.{given}
use kisauth.Identity.{AuthIdentity, find_by_provider_subject}
use kisauth.Events.{oauth_cancelled, oauth_callback_failed}
use kisauth.Service.{Config, Schedule, Handler, bad_request, ◌>>=◌, throw, emit, limit_rate, reply}
use kisauth.Oauth.{redirect, delete_session}
use kisauth.Oauth.Callback.{CallbackRequest, has_state, read_callback, error_for_client}
use kisauth.Oauth.Outcome.{VerifiedProviderIdentity, Randoms, finalize_link}
use kisauth.Oauth.Finish.{finalize_registration, finalize_returning_user}
use kisauth.Oauth.Enterprise.{
  Outside, partner_event, partner_session, resolve_or_fail, discover_or_fail,
}
use kisauth.Oauth.Enterprise.Exchange.{
  Vouching, vouched, not_verified, not_exchanged, ask_partner, tenant_identity,
}

-- `nonce` is that of the request to Django.
module _ (js : Js) (out : Outside js) {r : Redis} (sch : Schedule r) (config : Config)
    (random : Randoms) (nonce partner_slug : String) (req : CallbackRequest) where
  -- The user declined, or the provider reports another error.
  unfoldable pub partner_cancelled : (session_id error : String) → OAuthSession → Handler r String
  partner_cancelled session_id error session = do
    _ ← delete_session js sch config 2 session_id
    _ ← emit (partner_event oauth_cancelled session error req.ip partner_slug)
    redirect js sch config "cancelled" session.redirect_uri
        (("error", error_for_client error) ∷ ("state", session.client_state) ∷ [])

  unfoldable pub cancel_partner : (session_id error : String) → OAuthSession → Handler r String
  cancel_partner session_id error session =
      if has_state req.state session
      then partner_cancelled session_id error session
      else throw bad_request

  unfoldable pub give_up_partner : (session_id reason : String) → OAuthSession → Handler r String
  give_up_partner session_id reason session = do
    _ ← emit (partner_event oauth_callback_failed session reason req.ip partner_slug)
    _ ← delete_session js sch config 6 session_id
    redirect js sch config "invalid_request" session.redirect_uri
        (("error", "authentication_failed") ∷ ("state", session.client_state) ∷ [])

  unfoldable pub find_partner_identity : (subject : String) → Handler r (Option AuthIdentity)
  find_partner_identity subject w =
      let now = sch.gap 6 w in (reply (find_by_provider_subject "oidc" subject now.identities), now)

  unfoldable pub finish_partner_known :
      (session_id : String)
      → OAuthSession
      → VerifiedProviderIdentity
      → Option AuthIdentity
      → Handler r String
  finish_partner_known session_id session identity known =
      if str_eq session.purpose "registration"
      then finalize_registration js out.uuid sch config random req.ip 7 "oidc" identity known
          session session_id "enterprise_sso_registration" (some partner_slug)
      else finalize_returning_user js out.uuid sch config random req.ip 7 identity.sub known session
          session_id

  unfoldable pub search_partner :
      (session_id : String) → OAuthSession → VerifiedProviderIdentity → Handler r String
  search_partner session_id session identity = do
    known ← find_partner_identity identity.sub
    finish_partner_known session_id session identity known

  -- What follows once the partner's provider has vouched for the identity, under the tenant's key.
  unfoldable pub finish_partner :
      (session_id : String) → OAuthSession → VerifiedProviderIdentity → Handler r String
  finish_partner session_id session identity =
      if str_eq session.purpose "link"
      then finalize_link js out.uuid sch config random req.ip 6 "oidc" identity session session_id
      else search_partner session_id session identity

  unfoldable pub settle : (session_id : String) → OAuthSession → Vouching → Handler r String
  settle session_id session (vouched verified) =
      finish_partner session_id session (tenant_identity partner_slug verified)
  settle session_id session not_verified =
      give_up_partner session_id "id_token_verification_failed" session
  settle session_id session not_exchanged =
      give_up_partner session_id "token_exchange_failed" session

  unfoldable pub redeem_partner_code :
      (session_id : String) → OAuthSession → (code code_verifier : String) → Handler r String
  redeem_partner_code session_id session code code_verifier = do
    partner ← resolve_or_fail js out sch config nonce partner_slug req.ip 2 session_id session
    doc ←
        discover_or_fail js out sch config nonce partner_slug req.ip 4 session_id session
          partner.discovery_url
    settle session_id session
        (ask_partner js out config partner_slug partner doc code code_verifier session.nonce)

  unfoldable pub go_on_partner : (session_id : String) → OAuthSession → Handler r String
  go_on_partner session_id session =
      elim (read_callback (given req.code) (given req.state) (given session.code_verifier)
        session) [
          | none ↦ throw bad_request
          | some read ↦ redeem_partner_code session_id session read.0 read.1
        ]

  unfoldable pub answer_partner : (error : Option String) → String × OAuthSession → Handler r String
  answer_partner none (session_id, session) = go_on_partner session_id session
  answer_partner (some error) (session_id, session) = cancel_partner session_id error session

  unfoldable pub handle_enterprise_callback : Handler r String
  handle_enterprise_callback = do
    _ ← limit_rate sch 0 oauth_enterprise_callback req.ip
    found ← partner_session js out sch config nonce partner_slug req.ip (given req.cookie)
    answer_partner (given req.error) found
