-- ===== src/Oauth/Enterprise/Consumed.antt =====
-- A callback of src/oauth/oidc-enterprise.controller.ts that redirects has used its session up.
use kisauth.Base.{
  ℕ, String, Option, none, some, ◌≡◌, arith, Option-cases, Bool-cases, inl, inr, sym, ◌∙◌, str_eq,
  some_inj, subst,
}
use kisauth.Js.{Js}
use kisauth.Redis.{Redis}
use kisauth.Records.{OAuthSession}
use kisauth.Session.{get_session}
use kisauth.Signing.{given}
use kisauth.Identity.{AuthIdentity}
use kisauth.Service.{Config, World, Schedule}
use kisauth.Service.Laws.{Returns, bind_returns}
use kisauth.Oauth.Outcome.{VerifiedProviderIdentity, Randoms}
use kisauth.Oauth.Callback.{CallbackRequest, has_state, read_callback}
use kisauth.Oauth.Spent.{
  IsAfter, IsGone, IsLeftAlone, delete_session-IsGone, emit-IsGone, redirect-IsGone,
}
use kisauth.Oauth.Finalized.{
  finalize_link-IsGone, finalize_registration-IsGone, finalize_returning_user-IsGone,
}
use kisauth.Oauth.Consumed.{get_session_gone}
use kisauth.Oauth.Enterprise.{Outside}
use kisauth.Oauth.Enterprise.Exchange.{
  Vouching, vouched, not_verified, not_exchanged, tenant_identity,
}
use kisauth.Oauth.Enterprise.Admitted.{partner_session_returns}
use kisauth.Oauth.Enterprise.Callback.{
  partner_cancelled, cancel_partner, give_up_partner, finish_partner_known, search_partner,
  finish_partner, settle, redeem_partner_code, go_on_partner, answer_partner,
  handle_enterprise_callback,
}

module _ (js : Js) (out : Outside js) {r : Redis} (sch : Schedule r) (config : Config)
    (random : Randoms) (nonce partner_slug : String) (req : CallbackRequest) (id : String)
    (alone : IsLeftAlone sch id) where
  abbrev Gone : World r → Type 0
  Gone w = IsGone sch id w.redis

  cancel_partner-IsGone :
      (error : String) (session : OAuthSession) (w w' : World r) (url : String)
      → Returns
          (cancel_partner js out sch config random nonce partner_slug req id error session)
          w
          url
          w'
      → Gone w'
  unfolding cancel_partner partner_cancelled
  cancel_partner-IsGone error session w w' url h = elim (Bool-cases (has_state req.state session)) [
    | inr other ↦ ground arith
    | inl same ↦
        let h' : Returns
            (partner_cancelled js out sch config random nonce partner_slug req id error session) w
            url w' =
          rw (same, cancel_partner) at h in
        let (_, w₁, deleted, h₁) = bind_returns _ _ w url w' h' in
        let (_, w₂, told, h₂) = bind_returns _ _ w₁ url w' h₁ in
        redirect-IsGone sch id js config "cancelled" session.redirect_uri _ w₂ w' url h₂
          (emit-IsGone sch id _ w₁ w₂ told (delete_session-IsGone sch id js config 2 w w₁ deleted))
  ]

  give_up_partner-IsGone :
      (reason : String) (session : OAuthSession) (w w' : World r) (url : String)
      → Returns
          (give_up_partner js out sch config random nonce partner_slug req id reason session)
          w
          url
          w'
      → Gone w'
  unfolding give_up_partner
  give_up_partner-IsGone reason session w w' url h =
      let (_, w₁, _, h₁) = bind_returns _ _ w url w' h in
      let (_, w₂, deleted, h₂) = bind_returns _ _ w₁ url w' h₁ in
      redirect-IsGone sch id js config "invalid_request" session.redirect_uri _ w₂ w' url h₂
        (delete_session-IsGone sch id js config 6 w₁ w₂ deleted)

  finish_partner_known-IsGone :
      (session : OAuthSession) (identity : VerifiedProviderIdentity) (known : Option AuthIdentity)
      (w w' : World r) (url : String)
      → Returns
          (finish_partner_known js out sch config random nonce partner_slug req id session identity
            known)
          w
          url
          w'
      → Gone w'
  unfolding finish_partner_known
  finish_partner_known-IsGone session identity known w w' url h =
      elim (Bool-cases (str_eq session.purpose "registration")) [
        | inl new ↦
            finalize_registration-IsGone js out.uuid sch config random req.ip id alone 7 "oidc"
              identity known session "enterprise_sso_registration" (some partner_slug) w w' url
              (omega arith) (rw (new, finish_partner_known) at h)
        | inr old ↦
            finalize_returning_user-IsGone js out.uuid sch config random req.ip id alone 7
              identity.sub known session w w' url (omega arith)
              (rw (old, finish_partner_known) at h)
      ]

  finish_partner-IsGone :
      (session : OAuthSession) (identity : VerifiedProviderIdentity) (w w' : World r) (url : String)
      → Returns
          (finish_partner js out sch config random nonce partner_slug req id session identity)
          w
          url
          w'
      → Gone w'
  unfolding finish_partner search_partner
  finish_partner-IsGone session identity w w' url h =
      elim (Bool-cases (str_eq session.purpose "link")) [
        | inl link ↦
            finalize_link-IsGone js out.uuid sch config random req.ip id alone 6 "oidc" identity
              session w w' url (omega arith) (rw (link, finish_partner) at h)
        | inr other ↦
            let h' : Returns
                (search_partner js out sch config random nonce partner_slug req id session identity)
                w url w' =
              rw (other, finish_partner) at h in
            let (known, w₁, _, h₁) = bind_returns _ _ w url w' h' in
            finish_partner_known-IsGone session identity known w₁ w' url h₁
      ]

  settle-IsGone :
      (session : OAuthSession) (vouching : Vouching) (w w' : World r) (url : String)
      → Returns
          (settle js out sch config random nonce partner_slug req id session vouching)
          w
          url
          w'
      → Gone w'
  unfolding settle
  settle-IsGone session (vouched v) w w' url h =
      finish_partner-IsGone session (tenant_identity partner_slug v) w w' url h
  settle-IsGone session not_verified w w' url h = give_up_partner-IsGone _ session w w' url h
  settle-IsGone session not_exchanged w w' url h = give_up_partner-IsGone _ session w w' url h

  redeem-IsGone :
      (session : OAuthSession) (code verifier : String) (w w' : World r) (url : String)
      → Returns
          (redeem_partner_code js out sch config random nonce partner_slug req id session code
            verifier)
          w
          url
          w'
      → Gone w'
  unfolding redeem_partner_code
  redeem-IsGone session code verifier w w' url h =
      let (partner, w₁, _, h₁) = bind_returns _ _ w url w' h in
      let (doc, w₂, _, h₂) = bind_returns _ _ w₁ url w' h₁ in settle-IsGone session _ w₂ w' url h₂

  answer_partner-IsGone :
      (error : Option String) (session : OAuthSession) (w w' : World r) (url : String)
      → Returns
          (answer_partner js out sch config random nonce partner_slug req error (id, session))
          w
          url
          w'
      → Gone w'
  unfolding answer_partner go_on_partner
  answer_partner-IsGone (some error) session w w' url h =
      cancel_partner-IsGone error session w w' url h
  answer_partner-IsGone none session w w' url h =
      elim (Option-cases
        (read_callback (given req.code) (given req.state) (given session.code_verifier) session)) [
          | inl bad ↦ ground arith
          | inr (read, e) ↦
              redeem-IsGone session read.0 read.1 w w' url (rw (e, go_on_partner) at h)
        ]

  answer_named :
      (c : String) (error : Option String) (session : OAuthSession) (w w' : World r) (url : String)
      → c ≡ id
      → Returns
          (answer_partner js out sch config random nonce partner_slug req error (c, session))
          w
          url
          w'
      → Gone w'
  answer_named c error session w w' url same h = answer_partner-IsGone error session w w' url (
      subst
        (λ x.
          Returns
            (answer_partner js out sch config random nonce partner_slug req error (x, session)) w
            url w')
        same h)

  -- When GET /oauth/enterprise/:partnerSlug/callback has redirected, whatever the outcome, the
  -- session of its cookie is no more: whoever reads it after the last step of the handler finds none,
  -- provided that no other handler creates a session under the same name in between.
  pub enterprise_callback_consumes :
      (w w' : World r) (url : String) (t : ℕ)
      → given req.cookie ≡ some id
      → IsAfter sch id t
      → Returns
          (handle_enterprise_callback js out sch config random nonce partner_slug req)
          w
          url
          w'
      → get_session r t id w'.redis ≡ none
  unfolding handle_enterprise_callback
  enterprise_callback_consumes w w' url t cookie after h =
      let (_, w₁, _, h₁) = bind_returns _ _ w url w' h in
      let ((c, session), w₂, read, h₂) = bind_returns _ _ w₁ url w' h₁ in
      let (has, _, _) =
        partner_session_returns js out sch config nonce partner_slug req.ip (given req.cookie) c
          session w₁ w₂ read in
      let same : c ≡ id = some_inj (sym has ∙ cookie) in
      get_session_gone sch id w'.redis t
        (answer_named c (given req.error) session w₂ w' url same h₂) after
