-- ===== src/Oauth/Enterprise/Finished.antt =====
-- Where the ends of src/oauth/oidc-enterprise.controller.ts send the browser.
use kisauth.Base.{
  true, String, Option, some, ◌≡◌, arith, Bool-cases, inl, inr, str_eq, [], ◌∷◌, if◌then◌else◌,
}
use kisauth.Js.{Js}
use kisauth.Redis.{Redis}
use kisauth.Records.{OAuthSession}
use kisauth.Identity.{AuthIdentity}
use kisauth.Service.{Config, World, Schedule}
use kisauth.Service.Laws.{Returns, bind_returns}
use kisauth.Oauth.Outcome.{VerifiedProviderIdentity, Randoms}
use kisauth.Oauth.Destination.{
  GoesTo, SentBack, redirect_sends, finalize_link_returns, finalize_registration_returns,
  finalize_returning_user_returns,
}
use kisauth.Oauth.Callback.{CallbackRequest, has_state}
use kisauth.Oauth.Enterprise.{Outside}
use kisauth.Oauth.Enterprise.Callback.{
  partner_cancelled, cancel_partner, give_up_partner, finish_partner_known, search_partner,
  finish_partner,
}

module _ (js : Js) (out : Outside js) {r : Redis} (sch : Schedule r) (config : Config)
    (random : Randoms) (nonce partner_slug : String) (req : CallbackRequest) where
  abbrev pub LeadsTo : OAuthSession → String → Type 0
  LeadsTo session url = GoesTo js out.uuid sch config random req.ip session.redirect_uri url

  -- The browser is told that authentication has failed, or of the error that the provider reported.
  abbrev pub IsFailed : OAuthSession → String → Type 0
  IsFailed session url =
      SentBack js out.uuid sch config random req.ip "invalid_request"
        (("error", "authentication_failed") ∷ ("state", session.client_state) ∷ [])
        session.redirect_uri url

  abbrev pub IsCancelled : (error : String) → OAuthSession → String → Type 0
  IsCancelled error session url =
      SentBack js out.uuid sch config random req.ip "cancelled"
        (("error", if str_eq error "access_denied" then error else "authentication_failed")
          ∷ ("state", session.client_state)
          ∷ [])
        session.redirect_uri url

  pub IsFailed-LeadsTo :
      (session : OAuthSession) (url : String) → IsFailed session url → LeadsTo session url
  IsFailed-LeadsTo session url told = (
    "invalid_request",
    ("error", "authentication_failed") ∷ ("state", session.client_state) ∷ [],
    told,
  )

  pub IsCancelled-LeadsTo :
      (error : String) (session : OAuthSession) (url : String)
      → IsCancelled error session url
      → LeadsTo session url
  IsCancelled-LeadsTo error session url told = (
    "cancelled",
    ("error", if str_eq error "access_denied" then error else "authentication_failed")
        ∷ ("state", session.client_state)
        ∷ [],
    told,
  )

  pub give_up_partner_returns :
      (session_id reason : String) (session : OAuthSession) (w w' : World r) (url : String)
      → Returns
          (give_up_partner js out sch config random nonce partner_slug req session_id reason
            session)
          w
          url
          w'
      → IsFailed session url
  unfolding give_up_partner
  give_up_partner_returns session_id reason session w w' url h =
      let (_, w₁, _, h₁) = bind_returns _ _ w url w' h in
      let (_, w₂, _, h₂) = bind_returns _ _ w₁ url w' h₁ in
      redirect_sends js out.uuid sch config random req.ip "invalid_request" session.redirect_uri _
        w₂ w' url h₂

  pub cancel_partner_returns :
      (session_id error : String) (session : OAuthSession) (w w' : World r) (url : String)
      → Returns
          (cancel_partner js out sch config random nonce partner_slug req session_id error session)
          w
          url
          w'
      → (has_state req.state session ≡ true) × IsCancelled error session url
  unfolding cancel_partner partner_cancelled
  cancel_partner_returns session_id error session w w' url h =
      elim (Bool-cases (has_state req.state session)) [
        | inr other ↦ ground arith
        | inl same ↦
            let h' : Returns
                (partner_cancelled js out sch config random nonce partner_slug req session_id error
                  session)
                w url w' =
              rw (same, cancel_partner) at h in
            let (_, w₁, _, h₁) = bind_returns _ _ w url w' h' in
            let (_, w₂, _, h₂) = bind_returns _ _ w₁ url w' h₁ in
            (
              same,
              redirect_sends js out.uuid sch config random req.ip "cancelled" session.redirect_uri _
                  w₂ w' url h₂,
            )
      ]

  finish_partner_known_returns :
      (session_id : String) (session : OAuthSession) (identity : VerifiedProviderIdentity)
      (known : Option AuthIdentity) (w w' : World r) (url : String)
      → Returns
          (finish_partner_known js out sch config random nonce partner_slug req session_id session
            identity known)
          w
          url
          w'
      → LeadsTo session url
  unfolding finish_partner_known
  finish_partner_known_returns session_id session identity known w w' url h =
      elim (Bool-cases (str_eq session.purpose "registration")) [
        | inl new ↦
            finalize_registration_returns js out.uuid sch config random req.ip 7 "oidc" identity
              known session session_id "enterprise_sso_registration" (some partner_slug) w w' url
              (rw (new, finish_partner_known) at h)
        | inr old ↦
            finalize_returning_user_returns js out.uuid sch config random req.ip 7 identity.sub
              known session session_id w w' url (rw (old, finish_partner_known) at h)
      ]

  search_partner_returns :
      (session_id : String) (session : OAuthSession) (identity : VerifiedProviderIdentity)
      (w w' : World r) (url : String)
      → Returns
          (search_partner js out sch config random nonce partner_slug req session_id session
            identity)
          w
          url
          w'
      → LeadsTo session url
  unfolding search_partner
  search_partner_returns session_id session identity w w' url h =
      let (known, w₁, _, h₁) = bind_returns _ _ w url w' h in
      finish_partner_known_returns session_id session identity known w₁ w' url h₁

  pub finish_partner_returns :
      (session_id : String) (session : OAuthSession) (identity : VerifiedProviderIdentity)
      (w w' : World r) (url : String)
      → Returns
          (finish_partner js out sch config random nonce partner_slug req session_id session
            identity)
          w
          url
          w'
      → LeadsTo session url
  unfolding finish_partner
  finish_partner_returns session_id session identity w w' url h =
      elim (Bool-cases (str_eq session.purpose "link")) [
        | inl link ↦
            finalize_link_returns js out.uuid sch config random req.ip 6 "oidc" identity session
              session_id w w' url (rw (link, finish_partner) at h)
        | inr other ↦
            search_partner_returns session_id session identity w w' url
              (rw (other, finish_partner) at h)
      ]
