-- ===== src/Oauth/Returned.antt =====
-- What stands behind every redirection of GET /oauth/google/callback
-- (src/oauth/oauth.controller.ts).
use kisauth.Base.{
  true, String, Option, none, some, List, ◌≡◌, arith, Bool-cases, inl, inr, ap, str_eq, some_inj,
  [], ◌∷◌, if◌then◌else◌,
}
use kisauth.Js.{Js}
use kisauth.Json.{Json}
use kisauth.Redis.{Redis}
use kisauth.Records.{OAuthSession}
use kisauth.Signing.{given}
use kisauth.Service.{Config, World, Schedule}
use kisauth.Service.Laws.{Returns, bind_returns}
use kisauth.Google.{Response, exchange_code_for_id_token, verify_google}
use kisauth.Oauth.Outcome.{VerifiedProviderIdentity, Randoms}
use kisauth.Oauth.Destination.{
  GoesTo, SentBack, redirect_sends, finalize_link_returns, finalize_registration_returns,
  finalize_returning_user_returns,
}
use kisauth.Oauth.Callback.{
  CallbackRequest, has_state, read_callback, back_to_client, cancel, give_up, finish_known,
  search_and_finish, finish,
}
use kisauth.Identity.{AuthIdentity}

pub given_inv : (o : Option String) (s : String) → given o ≡ some s → o ≡ some s
given_inv none s h = ground arith
given_inv (some t) s h = ground arith

pub has_state-given :
    (o : Option String) (session : OAuthSession)
    → has_state (given o) session ≡ true
    → has_state o session ≡ true
has_state-given none session h = h
has_state-given (some t) session h = ground arith

pub read_callback_inv :
    (code state verifier : Option String) (session : OAuthSession) (c v : String)
    → read_callback code state verifier session ≡ some (c, v)
    → (code ≡ some c) × (verifier ≡ some v) × (has_state state session ≡ true)
read_callback_inv (some code) (some state) (some verifier) session c v h =
    elim (Bool-cases (str_eq state session.state)) [
      | inr differ ↦ ground arith
      | inl same ↦
          let e : (code, verifier) ≡ (c, v) = some_inj (rw same at h) in
          (ap (λ x. some x.0) e, ap (λ x. some x.1) e, same)
    ]
read_callback_inv _ _ _ session c v h = ground arith

module _ (js : Js) (uuid : String → Option String)
    (post : (url : String) → (form : List (String × String)) → Option Response)
    (jwt_verify : (token : String) → (issuers : List String) → (audience : String) → Option Json)
    {r : Redis} (sch : Schedule r) (config : Config) (random : Randoms)
    (req : CallbackRequest) where
  abbrev pub LeadsTo : OAuthSession → String → Type 0
  LeadsTo session url = GoesTo js uuid sch config random req.ip session.redirect_uri url

  -- The browser is told that authentication has failed, or of the error that Google reported.
  abbrev pub IsFailed : OAuthSession → String → Type 0
  IsFailed session url =
      SentBack js uuid sch config random req.ip "invalid_request"
        (("error", "authentication_failed") ∷ ("state", session.client_state) ∷ [])
        session.redirect_uri url

  abbrev pub IsCancelled : (error : String) → OAuthSession → String → Type 0
  IsCancelled error session url =
      SentBack js uuid sch config random req.ip "cancelled"
        (("error", if str_eq error "access_denied" then error else "authentication_failed")
          ∷ ("state", session.client_state)
          ∷ [])
        session.redirect_uri url

  pub IsFailed-LeadsTo :
      (session : OAuthSession) (url : String) → IsFailed session url → LeadsTo session url
  IsFailed-LeadsTo session url told = (
    "invalid_request",
    ("error", "authentication_failed") ∷ ("state", session.client_state) ∷ [],
    told,
  )

  pub IsCancelled-LeadsTo :
      (error : String) (session : OAuthSession) (url : String)
      → IsCancelled error session url
      → LeadsTo session url
  IsCancelled-LeadsTo error session url told = (
    "cancelled",
    ("error", if str_eq error "access_denied" then error else "authentication_failed")
        ∷ ("state", session.client_state)
        ∷ [],
    told,
  )

  -- The outcome is finished, in a state, for an identity that Google has vouched for in answer to the
  -- code and the verifier, with the nonce of the session.
  abbrev pub IsVouched : (session_id : String) → OAuthSession → String → World r → Type 0
  IsVouched session_id session url w' =
      (code verifier id_token : String) × (verified : VerifiedProviderIdentity) × (w : World r)
      × (given req.code ≡ some code)
      × (given session.code_verifier ≡ some verifier)
      × (exchange_code_for_id_token post config code verifier ≡ some id_token)
      × (verify_google jwt_verify config id_token session.nonce ≡ some verified)
      × Returns (finish js uuid post jwt_verify sch config random req session_id session verified) w
          url w'

  pub give_up_returns :
      (session_id reason : String) (session : OAuthSession) (w w' : World r) (url : String)
      → Returns
          (give_up js uuid post jwt_verify sch config random req session_id reason session)
          w
          url
          w'
      → IsFailed session url
  unfolding give_up
  give_up_returns session_id reason session w w' url h =
      let (_, w₁, _, h₁) = bind_returns _ _ w url w' h in
      let (_, w₂, _, h₂) = bind_returns _ _ w₁ url w' h₁ in
      redirect_sends js uuid sch config random req.ip "invalid_request" session.redirect_uri _ w₂ w'
        url h₂

  pub cancel_returns :
      (session_id error : String) (session : OAuthSession) (w w' : World r) (url : String)
      → Returns
          (cancel js uuid post jwt_verify sch config random req session_id error session)
          w
          url
          w'
      → (has_state req.state session ≡ true) × IsCancelled error session url
  unfolding cancel back_to_client
  cancel_returns session_id error session w w' url h =
      elim (Bool-cases (has_state req.state session)) [
        | inr other ↦ ground arith
        | inl same ↦
            let h' : Returns
                (back_to_client js uuid post jwt_verify sch config random req session_id error
                  session)
                w url w' =
              rw (same, cancel) at h in
            let (_, w₁, _, h₁) = bind_returns _ _ w url w' h' in
            let (_, w₂, _, h₂) = bind_returns _ _ w₁ url w' h₁ in
            (
              same,
              redirect_sends js uuid sch config random req.ip "cancelled" session.redirect_uri _ w₂
                  w' url h₂,
            )
      ]

  finish_known_returns :
      (session_id : String) (session : OAuthSession) (verified : VerifiedProviderIdentity)
      (identity : Option AuthIdentity) (w w' : World r) (url : String)
      → Returns
          (finish_known js uuid post jwt_verify sch config random req session_id session verified
            identity)
          w
          url
          w'
      → LeadsTo session url
  unfolding finish_known
  finish_known_returns session_id session verified identity w w' url h =
      elim (Bool-cases (str_eq session.purpose "registration")) [
        | inl new ↦
            finalize_registration_returns js uuid sch config random req.ip 3 "google" verified
              identity session session_id "registration" none w w' url (rw (new, finish_known) at h)
        | inr old ↦
            finalize_returning_user_returns js uuid sch config random req.ip 3 verified.sub identity
              session session_id w w' url (rw (old, finish_known) at h)
      ]

  search_and_finish_returns :
      (session_id : String) (session : OAuthSession) (verified : VerifiedProviderIdentity)
      (w w' : World r) (url : String)
      → Returns
          (search_and_finish js uuid post jwt_verify sch config random req session_id session
            verified)
          w
          url
          w'
      → LeadsTo session url
  unfolding search_and_finish
  search_and_finish_returns session_id session verified w w' url h =
      let (identity, w₁, _, h₁) = bind_returns _ _ w url w' h in
      finish_known_returns session_id session verified identity w₁ w' url h₁

  pub finish_returns :
      (session_id : String) (session : OAuthSession) (verified : VerifiedProviderIdentity)
      (w w' : World r) (url : String)
      → Returns
          (finish js uuid post jwt_verify sch config random req session_id session verified)
          w
          url
          w'
      → LeadsTo session url
  unfolding finish
  finish_returns session_id session verified w w' url h =
      elim (Bool-cases (str_eq session.purpose "link")) [
        | inl link ↦
            finalize_link_returns js uuid sch config random req.ip 2 "google" verified session
              session_id w w' url (rw (link, finish) at h)
        | inr other ↦
            search_and_finish_returns session_id session verified w w' url (rw (other, finish) at h)
      ]
