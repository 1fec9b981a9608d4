-- ===== src/Oauth/Answered.antt =====
-- Every redirection of GET /oauth/google/callback (src/oauth/oauth.controller.ts) belongs to the
-- session of the browser.
use kisauth.Base.{
  true, String, Option, none, some, List, ◌≡◌, arith, inl, inr, ap, some_inj, ◌⊎◌, Option-cases,
  sym, ◌∙◌, refl,
}
use kisauth.Js.{Js}
use kisauth.Json.{Json}
use kisauth.Redis.{Redis}
use kisauth.Records.{OAuthSession}
use kisauth.Signing.{given}
use kisauth.Service.{Config, World, Schedule}
use kisauth.Service.Laws.{Returns, bind_returns, reply_inj}
use kisauth.Google.{Response, exchange_code_for_id_token, verify_google}
use kisauth.Oauth.Outcome.{Randoms}
use kisauth.Oauth.Callback.{
  CallbackRequest, has_state, read_callback, answer, ask_google, go_on, answer_session,
  handle_callback, session_of,
}
use kisauth.Oauth.Returned.{
  LeadsTo, IsVouched, IsFailed, IsCancelled, IsFailed-LeadsTo, IsCancelled-LeadsTo, give_up_returns,
  cancel_returns, finish_returns, has_state-given, read_callback_inv, given_inv,
}
use kisauth.Session.{get_session}

module _ (js : Js) (uuid : String → Option String)
    (post : (url : String) → (form : List (String × String)) → Option Response)
    (jwt_verify : (token : String) → (issuers : List String) → (audience : String) → Option Json)
    {r : Redis} (sch : Schedule r) (config : Config) (random : Randoms)
    (req : CallbackRequest) where
  -- Google gave no id token in answer to the code, or one that does not vouch for an identity, and the
  -- browser is told so.
  abbrev pub IsRefused : OAuthSession → String → Type 0
  IsRefused session url =
      (code verifier : String) × (given req.code ≡ some code)
      × (given session.code_verifier ≡ some verifier)
      × ((exchange_code_for_id_token post config code verifier ≡ none)
          ⊎ ((id_token : String) × (exchange_code_for_id_token post config code verifier
                ≡ some id_token)
              × (verify_google jwt_verify config id_token session.nonce ≡ none)))
      × IsFailed js uuid post jwt_verify sch config random req session url

  -- How a callback with a live session ended: Google reported an error, and the browser is told so; or
  -- it would not vouch for an identity in answer to the code; or it vouched for one.
  abbrev pub Course : (session_id : String) → OAuthSession → String → World r → Type 0
  Course session_id session url w' =
      ((error : String) × (given req.error ≡ some error)
        × IsCancelled js uuid post jwt_verify sch config random req error session url)
      ⊎ (IsRefused session url
          ⊎ IsVouched js uuid post jwt_verify sch config random req session_id session url w')

  ask_google_returns :
      (session_id : String) (session : OAuthSession) (code verifier : String) (w w' : World r)
      (url : String)
      → given req.code ≡ some code
      → given session.code_verifier ≡ some verifier
      → Returns
          (ask_google js uuid post jwt_verify sch config random req session_id session code
            verifier)
          w
          url
          w'
      → Course session_id session url w'
        × LeadsTo js uuid post jwt_verify sch config random req session url
  unfolding ask_google
  ask_google_returns session_id session code verifier w w' url c v h =
      elim (Option-cases (exchange_code_for_id_token post config code verifier)) [
        | inl failed ↦
            let told =
              give_up_returns js uuid post jwt_verify sch config random req session_id
                "token_exchange_failed" session w w' url (rw (failed, ask_google) at h) in
            (
              inr (inl (code, verifier, c, v, inl failed, told)),
              IsFailed-LeadsTo js uuid post jwt_verify sch config random req session url told,
            )
        | inr (id_token, exchanged) ↦
            elim (Option-cases (verify_google jwt_verify config id_token session.nonce)) [
              | inl refused ↦
                  let told =
                    give_up_returns js uuid post jwt_verify sch config random req session_id
                      "id_token_verification_failed" session w w' url
                      (rw (exchanged, refused, ask_google) at h) in
                  (
                    inr (inl (code, verifier, c, v, inr (id_token, exchanged, refused), told)),
                    IsFailed-LeadsTo js uuid post jwt_verify sch config random req session url told,
                  )
              | inr (verified, checked) ↦
                  let h' = rw (exchanged, checked, ask_google) at h in
                  (
                    inr (inr (code, verifier, id_token, verified, w, c, v, exchanged, checked, h')),
                    finish_returns js uuid post jwt_verify sch config random req session_id session
                        verified w w' url h',
                  )
            ]
      ]

  answer_returns :
      (session_id : String) (error : Option String) (session : OAuthSession) (w w' : World r)
      (url : String)
      → given req.error ≡ error
      → Returns
          (answer js uuid post jwt_verify sch config random req session_id error session)
          w
          url
          w'
      → (has_state req.state session ≡ true)
        × Course session_id session url w'
        × LeadsTo js uuid post jwt_verify sch config random req session url
  unfolding answer go_on
  answer_returns session_id (some error) session w w' url e h =
      let (same, told) =
        cancel_returns js uuid post jwt_verify sch config random req session_id error session w w'
          url h in
      (
        same,
        inl (error, e, told),
        IsCancelled-LeadsTo js uuid post jwt_verify sch config random req error session url told,
      )
  answer_returns session_id none session w w' url e h =
      elim (Option-cases
        (read_callback (given req.code) (given req.state) (given session.code_verifier) session)) [
          | inl bad ↦ ground arith
          | inr ((code, verifier), read) ↦
              let (c, v, same) = read_callback_inv _ _ _ session code verifier read in
              let (course, leads) =
                ask_google_returns session_id session code verifier w w' url c v
                  (rw (read, go_on) at h) in
              (has_state-given req.state session same, course, leads)
        ]

  -- The session of the cookie, live when it was read, with the state that the callback carries; how
  -- the callback ended; and where it leads.
  pub record Answered (url : String) (w' : World r) : Type 0 where
    pub session_id : String
    pub session : OAuthSession
    pub before : World r
    pub has_cookie : req.cookie ≡ some session_id
    pub live : get_session r (sch.at 1) session_id (sch.gap 1 before).redis ≡ some session
    pub same_state : has_state req.state session ≡ true
    pub course : Course session_id session url w'
    pub leads : LeadsTo js uuid post jwt_verify sch config random req session url

  session_of_returns :
      (cookie : Option String) (found : Option OAuthSession) (session_id : String) (w w' : World r)
      → cookie ≡ some session_id
      → Returns (session_of js uuid post jwt_verify sch config random cookie) w found w'
      → get_session r (sch.at 1) session_id (sch.gap 1 w).redis ≡ found
  unfolding session_of
  session_of_returns none found session_id w w' e h = ground arith
  session_of_returns (some id) found session_id w w' e h =
      let same : id ≡ session_id = some_inj e in
      ap (λ x. get_session r (sch.at 1) x (sch.gap 1 w).redis) (sym same)
      ∙ reply_inj (ap (λ x. x.0) h)

  answer_session_returns :
      (cookie : Option String) (found : Option OAuthSession) (w₁ w w' : World r) (url : String)
      → given req.cookie ≡ cookie
      → Returns (session_of js uuid post jwt_verify sch config random cookie) w₁ found w
      → Returns (answer_session js uuid post jwt_verify sch config random req cookie found) w url w'
      → Answered url w'
  unfolding answer_session
  answer_session_returns (some session_id) (some session) w₁ w w' url e read h =
      let (same, course, leads) = answer_returns session_id _ session w w' url refl h in
      record {
        session_id = session_id;
        session = session;
        before = w₁;
        has_cookie = given_inv req.cookie session_id e;
        live = session_of_returns (some session_id) (some session) session_id w₁ w refl read;
        same_state = same;
        course = course;
        leads = leads;
      }
  answer_session_returns _ _ w₁ w w' url e read h = ground arith

  -- GET /oauth/google/callback redirects only a browser whose cookie names a session that is live and
  -- has the state of the callback, and only to the status page with the redirect URI of that session,
  -- told of a failure if Google reports an error, gives no id token or does not vouch in it; an outcome is finished only for an identity for which Google has vouched, in an id token with the
  -- nonce of the session, given in answer to the code of the callback and the verifier of the session.
  pub callback-Answered :
      (w w' : World r) (url : String)
      → Returns (handle_callback js uuid post jwt_verify sch config random req) w url w'
      → Answered url w'
  unfolding handle_callback
  callback-Answered w w' url h =
      let (_, w₁, _, h₁) = bind_returns _ _ w url w' h in
      let (found, w₂, read, h₂) = bind_returns _ _ w₁ url w' h₁ in
      answer_session_returns (given req.cookie) found w₁ w₂ w' url refl read h₂
