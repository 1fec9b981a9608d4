-- ===== src/Oauth/Consumed.antt =====
-- A callback of src/oauth/oauth.controller.ts that redirects has used its session up.
use kisauth.Base.{
  ℕ, String, Option, none, some, List, ◌≡◌, arith, Option-cases, Bool-cases, inl, inr, ap, str_eq,
  some_inj,
}
use kisauth.Js.{Js}
use kisauth.Json.{Json}
use kisauth.Redis.{Redis}
use kisauth.Records.{OAuthSession, as_session, ◌>>=◌}
use kisauth.Session.{get_session}
use kisauth.Signing.{given}
use kisauth.Identity.{AuthIdentity}
use kisauth.Service.{Config, World, Schedule}
use kisauth.Service.Laws.{Returns, bind_returns}
use kisauth.Google.{Response, exchange_code_for_id_token, verify_google}
use kisauth.Oauth.Outcome.{VerifiedProviderIdentity, Randoms}
use kisauth.Oauth.Callback.{
  CallbackRequest, has_state, read_callback, back_to_client, cancel, give_up, finish_known,
  search_and_finish, finish, ask_google, go_on, answer, answer_session, handle_callback,
}
use kisauth.Oauth.Spent.{
  IsAfter, IsGone, IsLeftAlone, delete_session-IsGone, emit-IsGone, redirect-IsGone,
}
use kisauth.Oauth.Finalized.{
  finalize_link-IsGone, finalize_registration-IsGone, finalize_returning_user-IsGone,
}

pub get_session_gone :
    {r : Redis} (sch : Schedule r) (id : String) (σ : r.State) (t : ℕ)
    → IsGone sch id σ
    → IsAfter sch id t
    → get_session r t id σ ≡ none
unfolding get_session
get_session_gone sch id σ t gone after = ap (λ x. x >>= as_session) (gone t after)

module _ (js : Js) (uuid : String → Option String)
    (post : (url : String) → (form : List (String × String)) → Option Response)
    (jwt_verify : (token : String) → (issuers : List String) → (audience : String) → Option Json)
    {r : Redis} (sch : Schedule r) (config : Config) (random : Randoms) (req : CallbackRequest)
    (id : String) (alone : IsLeftAlone sch id) where
  abbrev Gone : World r → Type 0
  Gone w = IsGone sch id w.redis

  cancel-IsGone :
      (error : String) (session : OAuthSession) (w w' : World r) (url : String)
      → Returns (cancel js uuid post jwt_verify sch config random req id error session) w url w'
      → Gone w'
  unfolding cancel back_to_client
  cancel-IsGone error session w w' url h = elim (Bool-cases (has_state req.state session)) [
    | inr other ↦ ground arith
    | inl same ↦
        let h' : Returns
            (back_to_client js uuid post jwt_verify sch config random req id error session) w url
            w' =
          rw (same, cancel) at h in
        let (_, w₁, deleted, h₁) = bind_returns _ _ w url w' h' in
        let (_, w₂, told, h₂) = bind_returns _ _ w₁ url w' h₁ in
        redirect-IsGone sch id js config "cancelled" session.redirect_uri _ w₂ w' url h₂
          (emit-IsGone sch id _ w₁ w₂ told (delete_session-IsGone sch id js config 2 w w₁ deleted))
  ]

  give_up-IsGone :
      (reason : String) (session : OAuthSession) (w w' : World r) (url : String)
      → Returns (give_up js uuid post jwt_verify sch config random req id reason session) w url w'
      → Gone w'
  unfolding give_up
  give_up-IsGone reason session w w' url h =
      let (_, w₁, _, h₁) = bind_returns _ _ w url w' h in
      let (_, w₂, deleted, h₂) = bind_returns _ _ w₁ url w' h₁ in
      redirect-IsGone sch id js config "invalid_request" session.redirect_uri _ w₂ w' url h₂
        (delete_session-IsGone sch id js config 2 w₁ w₂ deleted)

  finish_known-IsGone :
      (session : OAuthSession) (verified : VerifiedProviderIdentity)
      (identity : Option AuthIdentity) (w w' : World r) (url : String)
      → Returns
          (finish_known js uuid post jwt_verify sch config random req id session verified identity)
          w
          url
          w'
      → Gone w'
  unfolding finish_known
  finish_known-IsGone session verified identity w w' url h =
      elim (Bool-cases (str_eq session.purpose "registration")) [
        | inl new ↦
            finalize_registration-IsGone js uuid sch config random req.ip id alone 3 "google"
              verified identity session "registration" none w w' url (omega arith)
              (rw (new, finish_known) at h)
        | inr old ↦
            finalize_returning_user-IsGone js uuid sch config random req.ip id alone 3 verified.sub
              identity session w w' url (omega arith) (rw (old, finish_known) at h)
      ]

  finish-IsGone :
      (session : OAuthSession) (verified : VerifiedProviderIdentity) (w w' : World r) (url : String)
      → Returns (finish js uuid post jwt_verify sch config random req id session verified) w url w'
      → Gone w'
  unfolding finish search_and_finish
  finish-IsGone session verified w w' url h = elim (Bool-cases (str_eq session.purpose "link")) [
    | inl link ↦
        finalize_link-IsGone js uuid sch config random req.ip id alone 2 "google" verified session w
          w' url (omega arith) (rw (link, finish) at h)
    | inr other ↦
        let h' : Returns
            (search_and_finish js uuid post jwt_verify sch config random req id session verified) w
            url w' =
          rw (other, finish) at h in
        let (identity, w₁, _, h₁) = bind_returns _ _ w url w' h' in
        finish_known-IsGone session verified identity w₁ w' url h₁
  ]

  ask_google-IsGone :
      (session : OAuthSession) (code verifier : String) (w w' : World r) (url : String)
      → Returns
          (ask_google js uuid post jwt_verify sch config random req id session code verifier)
          w
          url
          w'
      → Gone w'
  unfolding ask_google
  ask_google-IsGone session code verifier w w' url h =
      elim (Option-cases (exchange_code_for_id_token post config code verifier)) [
        | inl failed ↦
            give_up-IsGone "token_exchange_failed" session w w' url (rw (failed, ask_google) at h)
        | inr (id_token, e) ↦
            elim (Option-cases (verify_google jwt_verify config id_token session.nonce)) [
              | inl refused ↦
                  give_up-IsGone "id_token_verification_failed" session w w' url
                    (rw (e, refused, ask_google) at h)
              | inr (verified, e') ↦
                  finish-IsGone session verified w w' url (rw (e, e', ask_google) at h)
            ]
      ]

  answer-IsGone :
      (error : Option String) (session : OAuthSession) (w w' : World r) (url : String)
      → Returns (answer js uuid post jwt_verify sch config random req id error session) w url w'
      → Gone w'
  unfolding answer go_on
  answer-IsGone (some error) session w w' url h = cancel-IsGone error session w w' url h
  answer-IsGone none session w w' url h =
      elim (Option-cases
        (read_callback (given req.code) (given req.state) (given session.code_verifier) session)) [
          | inl bad ↦ ground arith
          | inr (read, e) ↦ ask_google-IsGone session read.0 read.1 w w' url (rw (e, go_on) at h)
        ]

  answer_session-IsGone :
      (cookie : Option String) (found : Option OAuthSession) (w w' : World r) (url : String)
      → cookie ≡ some id
      → Returns (answer_session js uuid post jwt_verify sch config random req cookie found) w url w'
      → Gone w'
  unfolding answer_session
  answer_session-IsGone (some c) (some session) w w' url e h =
      answer-IsGone (given req.error) session w w' url (rw (some_inj e) at h)
  answer_session-IsGone _ _ w w' url e h = ground arith

  -- When GET /oauth/google/callback has redirected, whatever the outcome, the session of its cookie
  -- is no more: whoever reads it after the last step of the handler, such as a second callback, finds
  -- none, provided that no other handler creates a session under the same name in between.
  pub callback_consumes :
      (w w' : World r) (url : String) (t : ℕ)
      → given req.cookie ≡ some id
      → IsAfter sch id t
      → Returns (handle_callback js uuid post jwt_verify sch config random req) w url w'
      → get_session r t id w'.redis ≡ none
  unfolding handle_callback
  callback_consumes w w' url t cookie after h =
      let (_, w₁, _, h₁) = bind_returns _ _ w url w' h in
      let (found, w₂, _, h₂) = bind_returns _ _ w₁ url w' h₁ in
      get_session_gone sch id w'.redis t
        (answer_session-IsGone (given req.cookie) found w₂ w' url cookie h₂) after
