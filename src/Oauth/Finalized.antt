-- ===== src/Oauth/Finalized.antt =====
-- Every end of src/oauth/oauth-outcome.service.ts has used the session up.
use kisauth.Base.{ℕ, ◌+◌, ◌≤◌, String, Option, none, some, refl, arith, ap, sym, ◌∙◌}
use kisauth.Js.{Js}
use kisauth.Redis.{Redis}
use kisauth.Records.{Purpose, OAuthSession}
use kisauth.Keys.{tickets}
use kisauth.Challenge.{issue_registration_ticket}
use kisauth.Identity.{AuthIdentity, LinkResult, linked, already_linked, fault}
use kisauth.Service.{Config, World, Schedule}
use kisauth.Service.Laws.{Returns, bind_returns}
use kisauth.Oauth.Outcome.{
  VerifiedProviderIdentity, Randoms, answer_link_result, delete_after_link, link_for, finalize_link,
}
use kisauth.Oauth.Finish.{
  issue_ticket, register_unless_known, finalize_registration, finalize_returning_user,
}
use kisauth.Oauth.Spent.{
  session_key, last_step, IsGone, IsLeftAlone, IsGone-set_ex, delete_session-IsGone, emit-IsGone,
  redirect-IsGone, new_challenge-IsGone, confirm_and_redirect-IsGone,
}

module _ (js : Js) (uuid : String → Option String) {r : Redis} (sch : Schedule r) (config : Config)
    (random : Randoms) (ip id : String) (alone : IsLeftAlone sch id) where
  abbrev Gone : World r → Type 0
  Gone w = IsGone sch id w.redis

  answer_link_result-IsGone :
      (k : ℕ) (provider user : String) (session : OAuthSession) (result : LinkResult)
      (w w' : World r) (url : String)
      → k + 5 ≤ last_step
      → Returns
          (answer_link_result js uuid sch config random ip k provider user session result)
          w
          url
          w'
      → Gone w
      → Gone w'
  unfolding answer_link_result
  answer_link_result-IsGone k provider user session fault w w' url b h gone = ground arith
  answer_link_result-IsGone k provider user session already_linked w w' url b h gone =
      let (_, w₁, told, h₁) = bind_returns _ _ w url w' h in
      redirect-IsGone sch id js config "already_linked" session.redirect_uri _ w₁ w' url h₁
        (emit-IsGone sch id _ w w₁ told gone)
  answer_link_result-IsGone k provider user session (linked i) w w' url b h gone =
      let (_, w₁, told, h₁) = bind_returns _ _ w url w' h in
      let (_, w₂, made, h₂) = bind_returns _ _ w₁ url w' h₁ in
      confirm_and_redirect-IsGone sch id js config uuid random ip alone (k + 1) session.redirect_uri
        session.client_state "success" w₂ w' url (omega arith) h₂
        (new_challenge-IsGone sch id js config uuid random ip alone k "link" session.client_id user
          i.id w₁ w₂ (omega arith) made (emit-IsGone sch id _ w w₁ told gone))

  delete_after_link-IsGone :
      (k : ℕ) (result : LinkResult) (w w' : World r)
      → Returns (delete_after_link js uuid sch config random ip k id result) w tt w'
      → Gone w'
  unfolding delete_after_link
  delete_after_link-IsGone k fault w w' h = ground arith
  delete_after_link-IsGone k already_linked w w' h = delete_session-IsGone sch id js config k w w' h
  delete_after_link-IsGone k (linked i) w w' h = delete_session-IsGone sch id js config k w w' h

  link_for-IsGone :
      (k : ℕ) (provider : String) (verified : VerifiedProviderIdentity) (session : OAuthSession)
      (user : Option String) (w w' : World r) (url : String)
      → k + 8 ≤ last_step
      → Returns (link_for js uuid sch config random ip k provider verified session id user) w url w'
      → Gone w'
  unfolding link_for
  link_for-IsGone k provider verified session none w w' url b h =
      let (_, w₁, _, h₁) = bind_returns _ _ w url w' h in ground arith
  link_for-IsGone k provider verified session (some user) w w' url b h =
      let (result, w₁, _, h₁) = bind_returns _ _ w url w' h in
      let (_, w₂, deleted, h₂) = bind_returns _ _ w₁ url w' h₁ in
      answer_link_result-IsGone (k + 3) provider user session result w₂ w' url (omega arith) h₂
        (delete_after_link-IsGone (k + 2) result w₁ w₂ deleted)

  pub finalize_link-IsGone :
      (k : ℕ) (provider : String) (verified : VerifiedProviderIdentity) (session : OAuthSession)
      (w w' : World r) (url : String)
      → k + 8 ≤ last_step
      → Returns (finalize_link js uuid sch config random ip k provider verified session id) w url w'
      → Gone w'
  unfolding finalize_link
  finalize_link-IsGone k provider verified session w w' url b h =
      link_for-IsGone k provider verified session _ w w' url b h

  issue_ticket-IsGone :
      (k : ℕ) (provider : String) (verified : VerifiedProviderIdentity) (session : OAuthSession)
      (purpose : Purpose) (slug : Option String) (w w' : World r) (ticket : String)
      → k ≤ last_step
      → Returns
          (issue_ticket js uuid sch config random ip k provider verified session purpose slug)
          w
          ticket
          w'
      → Gone w
      → Gone w'
  unfolding issue_ticket issue_registration_ticket
  issue_ticket-IsGone k provider verified session purpose slug w w' ticket b h gone t after =
      ap (λ x. r.get t (session_key sch id) x.1.redis) (sym h)
      ∙ IsGone-set_ex sch id k tickets random.secret _ _ (sch.gap k w).redis b refl (alone k w gone)
          t after

  register_unless_known-IsGone :
      (k : ℕ) (provider : String) (verified : VerifiedProviderIdentity)
      (identity : Option AuthIdentity) (session : OAuthSession) (purpose : Purpose)
      (slug : Option String) (w w' : World r) (url : String)
      → k ≤ last_step
      → Returns
          (register_unless_known js uuid sch config random ip k provider verified identity session
            purpose slug)
          w
          url
          w'
      → Gone w
      → Gone w'
  unfolding register_unless_known
  register_unless_known-IsGone k provider verified (some i) session purpose slug w w' url b h gone =
      let (_, w₁, told, h₁) = bind_returns _ _ w url w' h in
      redirect-IsGone sch id js config "already_registered" session.redirect_uri _ w₁ w' url h₁
        (emit-IsGone sch id _ w w₁ told gone)
  register_unless_known-IsGone k provider verified none session purpose slug w w' url b h gone =
      let (ticket, w₁, issued, h₁) = bind_returns _ _ w url w' h in
      let (_, w₂, told, h₂) = bind_returns _ _ w₁ url w' h₁ in
      redirect-IsGone sch id js config "registration_continue" session.redirect_uri _ w₂ w' url h₂ (
        emit-IsGone sch id _ w₁ w₂ told
          (issue_ticket-IsGone k provider verified session purpose slug w w₁ ticket b issued gone))

  pub finalize_registration-IsGone :
      (k : ℕ) (provider : String) (verified : VerifiedProviderIdentity)
      (identity : Option AuthIdentity) (session : OAuthSession) (purpose : Purpose)
      (slug : Option String) (w w' : World r) (url : String)
      → k + 1 ≤ last_step
      → Returns
          (finalize_registration js uuid sch config random ip k provider verified identity session
            id purpose slug)
          w
          url
          w'
      → Gone w'
  unfolding finalize_registration
  finalize_registration-IsGone k provider verified identity session purpose slug w w' url b h =
      let (_, w₁, deleted, h₁) = bind_returns _ _ w url w' h in
      register_unless_known-IsGone (k + 1) provider verified identity session purpose slug w₁ w' url
        b h₁ (delete_session-IsGone sch id js config k w w₁ deleted)

  pub finalize_returning_user-IsGone :
      (k : ℕ) (subject : String) (identity : Option AuthIdentity) (session : OAuthSession)
      (w w' : World r) (url : String)
      → k + 7 ≤ last_step
      → Returns
          (finalize_returning_user js uuid sch config random ip k subject identity session id)
          w
          url
          w'
      → Gone w'
  unfolding finalize_returning_user
  finalize_returning_user-IsGone k subject none session w w' url b h =
      let (_, w₁, deleted, h₁) = bind_returns _ _ w url w' h in
      let (_, w₂, told, h₂) = bind_returns _ _ w₁ url w' h₁ in
      redirect-IsGone sch id js config "not_linked" session.redirect_uri _ w₂ w' url h₂
        (emit-IsGone sch id _ w₁ w₂ told (delete_session-IsGone sch id js config k w w₁ deleted))
  finalize_returning_user-IsGone k subject (some i) session w w' url b h =
      let (_, w₁, _, h₁) = bind_returns _ _ w url w' h in
      let (_, w₂, _, h₂) = bind_returns _ _ w₁ url w' h₁ in
      let (_, w₃, _, h₃) = bind_returns _ _ w₂ url w' h₂ in
      let (_, w₄, deleted, h₄) = bind_returns _ _ w₃ url w' h₃ in
      confirm_and_redirect-IsGone sch id js config uuid random ip alone (k + 3) session.redirect_uri
        session.client_state "recovery_success" w₄ w' url (omega arith) h₄
        (delete_session-IsGone sch id js config (k + 2) w₃ w₄ deleted)
