-- ===== src/Oauth/Destination.antt =====
-- Where src/oauth/oauth-outcome.service.ts sends the browser.
use kisauth.Base.{
  ℕ, ◌+◌, String, Option, none, some, List, ◌≡◌, arith, Option-cases, inl, inr, [], ◌∷◌, refl, sym,
  ◌∙◌, ap, some_inj,
}
use kisauth.Js.{Js}
use kisauth.Redis.{Redis}
use kisauth.Records.{Purpose, OAuthSession}
use kisauth.Identity.{AuthIdentity, LinkResult, linked, already_linked, fault}
use kisauth.Service.{Config, World, Schedule, Handler}
use kisauth.Service.Laws.{Returns, bind_returns}
use kisauth.Oauth.{set_params, status_redirect_url, location, redirect}
use kisauth.Oauth.Outcome.{
  VerifiedProviderIdentity, Randoms, confirm_and_redirect, answer_link_result, link_for,
  finalize_link,
}
use kisauth.Oauth.Finish.{register_unless_known, finalize_registration, finalize_returning_user}

module _ (js : Js) (uuid : String → Option String) {r : Redis} (sch : Schedule r) (config : Config)
    (random : Randoms) (ip : String) where
  -- Parameters, set one after the other.
  abbrev pub with_all : List (String × String) → js.Url → js.Url
  with_all [] page = page
  with_all (param ∷ rest) page = with_all rest (js.set_param param.0 param.1 page)

  -- The URL is that of the page /status of the service, with a status and, as the place to go on to,
  -- the redirect URI with parameters.
  abbrev pub SentBack :
      (status : String) → List (String × String) → (redirect_uri url : String) → Type 0
  SentBack status params redirect_uri url =
      (client page : js.Url) × (js.parse_url redirect_uri ≡ some client)
      × (js.new_url "/status" config.base_url ≡ some page)
      × (url
          ≡ js.href (
              js.set_param "client_redirect" (js.href (with_all params client))
                (js.set_param "state" status page)))

  -- The status page of the service, with the redirect URI of the session and parameters set on it.
  abbrev pub GoesTo : (redirect_uri : String) → (url : String) → Type 0
  GoesTo redirect_uri url =
      (status : String) × (params : List (String × String)) × SentBack status params redirect_uri
        url

  set_params-with_all :
      (params : List (String × String)) (page : js.Url)
      → set_params js params page ≡ with_all params page
  set_params-with_all [] page = refl
  set_params-with_all ((name, value) ∷ rest) page = set_params-with_all rest _

  location-SentBack :
      (status redirect_uri : String) (params : List (String × String)) (url : String)
      → location js config.base_url status redirect_uri params ≡ some url
      → SentBack status params redirect_uri url
  unfolding location status_redirect_url
  location-SentBack status redirect_uri params url h =
      elim (Option-cases (js.parse_url redirect_uri)) [
        | inl bad ↦ (let e = rw (bad, location) at h in cc)
        | inr (client, parsed) ↦ elim (Option-cases (js.new_url "/status" config.base_url)) [
          | inl bad ↦ (let e = rw (parsed, bad, location, status_redirect_url) at h in cc)
          | inr (page, made) ↦
              let e = some_inj (rw (parsed, made, location, status_redirect_url) at h) in
              (
                client,
                page,
                parsed,
                made,
                sym e
                    ∙ ap
                        (λ x. js.href (
                          js.set_param "client_redirect" (js.href x)
                            (js.set_param "state" status page)))
                        (set_params-with_all params client),
              )
        ]
      ]

  pub redirect_sends :
      (status redirect_uri : String) (params : List (String × String)) (w w' : World r)
      (url : String)
      → Returns (redirect js sch config status redirect_uri params) w url w'
      → SentBack status params redirect_uri url
  unfolding redirect
  redirect_sends status redirect_uri params w w' url h =
      elim (Option-cases (location js config.base_url status redirect_uri params)) [
        | inl bad ↦ ground arith
        | inr (made, e) ↦ location-SentBack status redirect_uri params url (ground arith)
      ]

  pub redirect_returns :
      (status redirect_uri : String) (params : List (String × String)) (w w' : World r)
      (url : String)
      → Returns (redirect js sch config status redirect_uri params) w url w'
      → GoesTo redirect_uri url
  redirect_returns status redirect_uri params w w' url h =
      (status, params, redirect_sends status redirect_uri params w w' url h)

  confirm_returns :
      (k : ℕ) (redirect_uri client_state status : String) (w w' : World r) (url : String)
      → Returns
          (confirm_and_redirect js uuid sch config random ip k redirect_uri client_state status)
          w
          url
          w'
      → GoesTo redirect_uri url
  unfolding confirm_and_redirect
  confirm_returns k redirect_uri client_state status w w' url h =
      let (_, w₁, _, h₁) = bind_returns _ _ w url w' h in
      let (_, w₂, _, h₂) = bind_returns _ _ w₁ url w' h₁ in
      let (_, w₃, _, h₃) = bind_returns _ _ w₂ url w' h₂ in
      redirect_returns status redirect_uri _ w₃ w' url h₃

  answer_link_result_returns :
      (k : ℕ) (provider user : String) (session : OAuthSession) (result : LinkResult)
      (w w' : World r) (url : String)
      → Returns
          (answer_link_result js uuid sch config random ip k provider user session result)
          w
          url
          w'
      → GoesTo session.redirect_uri url
  unfolding answer_link_result
  answer_link_result_returns k provider user session fault w w' url h = ground arith
  answer_link_result_returns k provider user session already_linked w w' url h =
      let (_, w₁, _, h₁) = bind_returns _ _ w url w' h in
      redirect_returns "already_linked" session.redirect_uri _ w₁ w' url h₁
  answer_link_result_returns k provider user session (linked i) w w' url h =
      let (_, w₁, _, h₁) = bind_returns _ _ w url w' h in
      let (_, w₂, _, h₂) = bind_returns _ _ w₁ url w' h₁ in
      confirm_returns (k + 1) session.redirect_uri session.client_state "success" w₂ w' url h₂

  link_for_returns :
      (k : ℕ) (provider : String) (verified : VerifiedProviderIdentity) (session : OAuthSession)
      (session_id : String) (user : Option String) (w w' : World r) (url : String)
      → Returns
          (link_for js uuid sch config random ip k provider verified session session_id user)
          w
          url
          w'
      → GoesTo session.redirect_uri url
  unfolding link_for
  link_for_returns k provider verified session session_id none w w' url h =
      let (_, w₁, _, h₁) = bind_returns _ _ w url w' h in ground arith
  link_for_returns k provider verified session session_id (some user) w w' url h =
      let (result, w₁, _, h₁) = bind_returns _ _ w url w' h in
      let (_, w₂, _, h₂) = bind_returns _ _ w₁ url w' h₁ in
      answer_link_result_returns (k + 3) provider user session result w₂ w' url h₂

  -- finalizeLink sends the browser nowhere but to the status page, with the redirect URI of the
  -- session.
  pub finalize_link_returns :
      (k : ℕ) (provider : String) (verified : VerifiedProviderIdentity) (session : OAuthSession)
      (session_id : String) (w w' : World r) (url : String)
      → Returns
          (finalize_link js uuid sch config random ip k provider verified session session_id)
          w
          url
          w'
      → GoesTo session.redirect_uri url
  unfolding finalize_link
  finalize_link_returns k provider verified session session_id w w' url h =
      link_for_returns k provider verified session session_id _ w w' url h

  pub finalize_registration_returns :
      (k : ℕ) (provider : String) (verified : VerifiedProviderIdentity)
      (identity : Option AuthIdentity) (session : OAuthSession) (session_id : String)
      (purpose : Purpose) (slug : Option String) (w w' : World r) (url : String)
      → Returns
          (finalize_registration js uuid sch config random ip k provider verified identity session
            session_id purpose slug)
          w
          url
          w'
      → GoesTo session.redirect_uri url
  unfolding finalize_registration register_unless_known
  finalize_registration_returns k provider verified (some i) session session_id purpose slug w w'
        url h =
      let (_, w₁, _, h₁) = bind_returns _ _ w url w' h in
      let (_, w₂, _, h₂) = bind_returns _ _ w₁ url w' h₁ in
      redirect_returns "already_registered" session.redirect_uri _ w₂ w' url h₂
  finalize_registration_returns k provider verified none session session_id purpose slug w w' url
        h =
      let (_, w₁, _, h₁) = bind_returns _ _ w url w' h in
      let (_, w₂, _, h₂) = bind_returns _ _ w₁ url w' h₁ in
      let (_, w₃, _, h₃) = bind_returns _ _ w₂ url w' h₂ in
      redirect_returns "registration_continue" session.redirect_uri _ w₃ w' url h₃

  pub finalize_returning_user_returns :
      (k : ℕ) (subject : String) (identity : Option AuthIdentity) (session : OAuthSession)
      (session_id : String) (w w' : World r) (url : String)
      → Returns
          (finalize_returning_user js uuid sch config random ip k subject identity session
            session_id)
          w
          url
          w'
      → GoesTo session.redirect_uri url
  unfolding finalize_returning_user
  finalize_returning_user_returns k subject none session session_id w w' url h =
      let (_, w₁, _, h₁) = bind_returns _ _ w url w' h in
      let (_, w₂, _, h₂) = bind_returns _ _ w₁ url w' h₁ in
      redirect_returns "not_linked" session.redirect_uri _ w₂ w' url h₂
  finalize_returning_user_returns k subject (some i) session session_id w w' url h =
      let (_, w₁, _, h₁) = bind_returns _ _ w url w' h in
      let (_, w₂, _, h₂) = bind_returns _ _ w₁ url w' h₁ in
      let (_, w₃, _, h₃) = bind_returns _ _ w₂ url w' h₂ in
      let (_, w₄, _, h₄) = bind_returns _ _ w₃ url w' h₃ in
      confirm_returns (k + 3) session.redirect_uri session.client_state "recovery_success" w₄ w' url
        h₄

  -- The three ways in which the outcome of a provider's callback is finished, with their arguments.
  pub data Ending : Type 0 where
    as_link : (provider : String) → VerifiedProviderIdentity → Ending
    as_registration :
        (provider : String)
        → VerifiedProviderIdentity
        → Option AuthIdentity
        → Purpose
        → (slug : Option String) → Ending
    as_return : (subject : String) → Option AuthIdentity → Ending

  abbrev pub finalize : (k : ℕ) → Ending → OAuthSession → (session_id : String) → Handler r String
  finalize k (as_link provider verified) session session_id =
      finalize_link js uuid sch config random ip k provider verified session session_id
  finalize k (as_registration provider verified identity purpose slug) session session_id =
      finalize_registration js uuid sch config random ip k provider verified identity session
        session_id purpose slug
  finalize k (as_return subject identity) session session_id =
      finalize_returning_user js uuid sch config random ip k subject identity session session_id

  -- Whichever way the outcome of a provider's callback is finished, as a link, a registration or the
  -- return of a user, if the browser is redirected then it is to the page /status of the service, which
  -- is given the redirect URI of the session with nothing but parameters set on it.
  pub outcome-GoesTo :
      (k : ℕ) (ending : Ending) (session : OAuthSession) (session_id : String) (w w' : World r)
      (url : String)
      → Returns (finalize k ending session session_id) w url w'
      → GoesTo session.redirect_uri url
  outcome-GoesTo k (as_link provider verified) session session_id w w' url h =
      finalize_link_returns k provider verified session session_id w w' url h
  outcome-GoesTo k (as_registration provider verified identity purpose slug) session session_id w w'
        url h =
      finalize_registration_returns k provider verified identity session session_id purpose slug w
        w' url h
  outcome-GoesTo k (as_return subject identity) session session_id w w' url h =
      finalize_returning_user_returns k subject identity session session_id w w' url h
