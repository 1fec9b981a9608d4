-- ===== src/Oauth/Finish.antt =====
-- src/oauth/oauth-outcome.service.ts: registration, and the return of a known user.
use kisauth.Base.{ℕ, ◌+◌, String, Option, none, some, [], ◌∷◌}
use kisauth.Js.{Js}
use kisauth.Redis.{Redis}
use kisauth.Records.{Purpose, OAuthSession}
use kisauth.Challenge.{issue_registration_ticket}
use kisauth.Identity.{AuthIdentity, touch_last_authenticated}
use kisauth.Events.{
  success, failure, registration_already_registered, registration_ticket_issued,
  oauth_identity_not_linked, oauth_callback_succeeded,
}
use kisauth.Service.{Config, Schedule, Handler, internal_error, ◌>>=◌, emit, reply, failed}
use kisauth.Oauth.{redirect, delete_session}
use kisauth.Oauth.Outcome.{
  VerifiedProviderIdentity, Randoms, outcome_event, new_challenge, confirm_and_redirect,
}

module _ (js : Js) (uuid : String → Option String) {r : Redis} (sch : Schedule r) (config : Config)
    (random : Randoms) (ip : String) where
  unfoldable pub issue_ticket :
      (k : ℕ)
      → (provider : String) → VerifiedProviderIdentity
      → OAuthSession
      → Purpose
      → Option String
      → Handler r String
  issue_ticket k provider verified session purpose partner_slug w =
      let now = sch.gap k w in
      let (ticket, σ) =
        issue_registration_ticket r (sch.at k) random.secret
          (record {
            client_id = session.client_id;
            purpose = purpose;
            provider = provider;
            provider_subject = verified.sub;
            provider_email = verified.email;
            provider_email_verified = verified.email_verified;
            partner_slug = partner_slug;
            redirect_uri = session.redirect_uri;
          })
          config.auth_code_ttl_seconds now.redis in
      (reply ticket, record now { redis = σ })

  unfoldable pub register_unless_known :
      (k : ℕ)
      → (provider : String) → VerifiedProviderIdentity
      → Option AuthIdentity
      → OAuthSession
      → Purpose
      → Option String
      → Handler r String
  register_unless_known k provider verified (some identity) session purpose partner_slug = do
    _ ← emit (
        outcome_event registration_already_registered failure (some identity.kis_user_id) session ip
          (("provider", some provider) ∷ ("partner_slug", partner_slug) ∷ []))
    redirect js sch config "already_registered" session.redirect_uri
        (("error", "already_registered") ∷ ("state", session.client_state) ∷ [])
  register_unless_known k provider verified none session purpose partner_slug = do
    ticket ← issue_ticket k provider verified session purpose partner_slug
    _ ← emit (
        outcome_event registration_ticket_issued success none session ip
          (("provider", some provider) ∷ ("partner_slug", partner_slug) ∷ []))
    redirect js sch config "registration_continue" session.redirect_uri
        (("code", ticket) ∷ ("state", session.client_state) ∷ [])

  unfoldable pub finalize_registration :
      (k : ℕ)
      → (provider : String) → VerifiedProviderIdentity
      → Option AuthIdentity
      → OAuthSession
      → (session_id : String) → Purpose
      → (partner_slug : Option String) → Handler r String
  finalize_registration k provider verified identity session session_id purpose partner_slug = do
    _ ← delete_session js sch config k session_id
    register_unless_known (k + 1) provider verified identity session purpose partner_slug

  unfoldable pub touch : (k : ℕ) → String → Handler r Unit
  touch k id w =
      let now = sch.gap k w in
      elim (touch_last_authenticated uuid (sch.at k) id now.identities) [
        | none ↦ (failed internal_error, now)
        | some rows ↦ (reply tt, record now { identities = rows })
      ]

  unfoldable pub finalize_returning_user :
      (k : ℕ)
      → (provider_subject : String) → Option AuthIdentity
      → OAuthSession
      → (session_id : String) → Handler r String
  finalize_returning_user k provider_subject none session session_id = do
    _ ← delete_session js sch config k session_id
    _ ← emit (outcome_event oauth_identity_not_linked failure none session ip [])
    redirect js sch config "not_linked" session.redirect_uri (
        ("error", "not_linked")
        ∷ ("provider_subject", provider_subject)
        ∷ ("state", session.client_state)
        ∷ [])
  finalize_returning_user k provider_subject (some identity) session session_id = do
    _ ← touch k identity.id
    _ ← emit (
        outcome_event oauth_callback_succeeded success (some identity.kis_user_id) session ip
          (("purpose", some session.purpose) ∷ []))
    _ ←
        new_challenge js uuid sch config random ip (k + 1) session.purpose session.client_id
          identity.kis_user_id identity.id
    _ ← delete_session js sch config (k + 2) session_id
    confirm_and_redirect js uuid sch config random ip (k + 3) session.redirect_uri
        session.client_state "recovery_success"
