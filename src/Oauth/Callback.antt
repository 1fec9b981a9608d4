-- ===== src/Oauth/Callback.antt =====
-- GET /oauth/google/callback: src/oauth/oauth.controller.ts.
-- `cookie` is the session cookie as parseCookieHeader reads it from the header.
use kisauth.Base.{Bool, false, String, Option, none, some, [], ◌∷◌, str_eq, if◌then◌else◌, List}
use kisauth.Js.{Js}
use kisauth.Json.{Json}
use kisauth.Redis.{Redis}
use kisauth.Records.{OAuthSession}
use kisauth.RateLimit.{oauth_google_callback}
use kisauth.Session.{get_session}
use kisauth.Signing.{given}
use kisauth.Identity.{AuthIdentity, find_by_provider_subject}
use kisauth.Events.{SecurityEvent, failure, oauth_cancelled, oauth_callback_failed}
use kisauth.Service.{Config, Schedule, Handler, bad_request, ◌>>=◌, throw, emit, limit_rate, reply}
use kisauth.Google.{Response, exchange_code_for_id_token, verify_google}
use kisauth.Oauth.{redirect, delete_session}
use kisauth.Oauth.Outcome.{VerifiedProviderIdentity, Randoms, finalize_link}
use kisauth.Oauth.Finish.{finalize_registration, finalize_returning_user}

pub record CallbackRequest : Type 0 where
  pub cookie : Option String
  pub code : Option String
  pub state : Option String
  pub error : Option String
  pub ip : String

abbrev pub callback_event : OAuthSession → (reason ip : String) → SecurityEvent
callback_event session reason ip = record {
  event_type = oauth_callback_failed;
  outcome = failure;
  kis_user_id = none;
  client_id = some session.client_id;
  reason = some reason;
  ip = some ip;
  metadata = [];
}

abbrev pub cancel_event : OAuthSession → (reason ip : String) → SecurityEvent
cancel_event session reason ip = record {
  event_type = oauth_cancelled;
  outcome = failure;
  kis_user_id = none;
  client_id = some session.client_id;
  reason = some reason;
  ip = some ip;
  metadata = [];
}

-- `error === 'access_denied' ? 'access_denied' : 'authentication_failed'`
abbrev pub error_for_client : String → String
error_for_client error = if str_eq error "access_denied" then error else "authentication_failed"

-- `state === session.state`
abbrev pub has_state : Option String → OAuthSession → Bool
has_state none session = false
has_state (some state) session = str_eq state session.state

-- The code and the verifier of a callback that may go on.
abbrev pub read_callback :
    (code state verifier : Option String) → OAuthSession → Option (String × String)
read_callback (some code) (some state) (some verifier) session =
    if str_eq state session.state then some (code, verifier) else none
read_callback _ _ _ session = none

module _ (js : Js) (uuid : String → Option String)
    (post : (url : String) → (form : List (String × String)) → Option Response)
    (jwt_verify : (token : String) → (issuers : List String) → (audience : String) → Option Json)
    {r : Redis} (sch : Schedule r) (config : Config) (random : Randoms) where
  -- The session of the cookie.
  unfoldable pub session_of : (cookie : Option String) → Handler r (Option OAuthSession)
  session_of none w = (reply none, w)
  session_of (some id) w =
      let now = sch.gap 1 w in (reply (get_session r (sch.at 1) id now.redis), now)

  -- The user declined, or Google reports another error.
  unfoldable pub back_to_client :
      CallbackRequest → (session_id error : String) → OAuthSession → Handler r String
  back_to_client req session_id error session = do
    _ ← delete_session js sch config 2 session_id
    _ ← emit (cancel_event session error req.ip)
    redirect js sch config "cancelled" session.redirect_uri
        (("error", error_for_client error) ∷ ("state", session.client_state) ∷ [])

  unfoldable pub cancel :
      CallbackRequest → (session_id error : String) → OAuthSession → Handler r String
  cancel req session_id error session =
      if has_state req.state session
      then back_to_client req session_id error session
      else throw bad_request

  unfoldable pub give_up :
      CallbackRequest → (session_id reason : String) → OAuthSession → Handler r String
  give_up req session_id reason session = do
    _ ← emit (callback_event session reason req.ip)
    _ ← delete_session js sch config 2 session_id
    redirect js sch config "invalid_request" session.redirect_uri
        (("error", "authentication_failed") ∷ ("state", session.client_state) ∷ [])

  unfoldable pub find_google_identity : (subject : String) → Handler r (Option AuthIdentity)
  find_google_identity subject w =
      let now = sch.gap 2 w in
      (reply (find_by_provider_subject "google" subject now.identities), now)

  unfoldable pub finish_known :
      CallbackRequest
      → (session_id : String) → OAuthSession
      → VerifiedProviderIdentity
      → Option AuthIdentity
      → Handler r String
  finish_known req session_id session verified identity =
      if str_eq session.purpose "registration"
      then finalize_registration js uuid sch config random req.ip 3 "google" verified identity
          session session_id "registration" none
      else finalize_returning_user js uuid sch config random req.ip 3 verified.sub identity session
          session_id

  unfoldable pub search_and_finish :
      CallbackRequest
      → (session_id : String) → OAuthSession
      → VerifiedProviderIdentity
      → Handler r String
  search_and_finish req session_id session verified = do
    identity ← find_google_identity verified.sub
    finish_known req session_id session verified identity

  -- What follows once Google has vouched for the identity.
  unfoldable pub finish :
      CallbackRequest
      → (session_id : String) → OAuthSession
      → VerifiedProviderIdentity
      → Handler r String
  finish req session_id session verified =
      if str_eq session.purpose "link"
      then finalize_link js uuid sch config random req.ip 2 "google" verified session session_id
      else search_and_finish req session_id session verified

  unfoldable pub ask_google :
      CallbackRequest
      → (session_id : String) → OAuthSession
      → (code verifier : String) → Handler r String
  ask_google req session_id session code verifier =
      elim (exchange_code_for_id_token post config code verifier) [
        | none ↦ give_up req session_id "token_exchange_failed" session
        | some id_token ↦ elim (verify_google jwt_verify config id_token session.nonce) [
          | none ↦ give_up req session_id "id_token_verification_failed" session
          | some verified ↦ finish req session_id session verified
        ]
      ]

  unfoldable pub go_on : CallbackRequest → (session_id : String) → OAuthSession → Handler r String
  go_on req session_id session =
      elim (read_callback (given req.code) (given req.state) (given session.code_verifier)
        session) [
          | none ↦ throw bad_request
          | some read ↦ ask_google req session_id session read.0 read.1
        ]

  -- The callback of a browser with its session.
  unfoldable pub answer :
      CallbackRequest
      → (session_id : String) → (error : Option String) → OAuthSession
      → Handler r String
  answer req session_id none session = go_on req session_id session
  answer req session_id (some error) session = cancel req session_id error session

  unfoldable pub answer_session :
      CallbackRequest → (cookie : Option String) → Option OAuthSession → Handler r String
  answer_session req (some session_id) (some session) =
      answer req session_id (given req.error) session
  answer_session req _ _ = throw bad_request

  unfoldable pub handle_callback : CallbackRequest → Handler r String
  handle_callback req = do
    _ ← limit_rate sch 0 oauth_google_callback req.ip
    session ← session_of (given req.cookie)
    answer_session req (given req.cookie) session
