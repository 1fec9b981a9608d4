-- ===== src/Oauth/Start.antt =====
-- GET /oauth/google/start: src/oauth/oauth.controller.ts.
use kisauth.Base.{ℕ, ◌+◌, String, Option, none, some, List, [], ◌∷◌}
use kisauth.Js.{Js}
use kisauth.Redis.{Redis}
use kisauth.Records.{OAuthSession}
use kisauth.RateLimit.{oauth_google_start}
use kisauth.Session.{get_session, or_full}
use kisauth.Challenge.{positive}
use kisauth.Keys.{session_prefix}
use kisauth.Records.{session}
use kisauth.Signing.{given}
use kisauth.Service.{
  Config, Schedule, Handler, bad_request, internal_error, ◌>>=◌, pure, throw, limit_rate, reply,
}
use kisauth.Oauth.{set_params}
use kisauth.Base.Texts.{◌++◌}

-- The parameters of the URL at Google.
abbrev pub google_params :
    Js → Config → OAuthSession → (code_verifier : String) → List (String × String)
google_params js config s code_verifier =
    ("client_id", config.google_client_id)
    ∷ ("redirect_uri", config.google_redirect_uri)
    ∷ ("response_type", "code")
    ∷ ("scope", "openid email profile")
    ∷ ("state", s.state)
    ∷ ("nonce", s.nonce)
    ∷ ("code_challenge", js.sha256_base64url code_verifier)
    ∷ ("code_challenge_method", "S256")
    ∷ []

unfoldable pub google_url : Js → Config → OAuthSession → (code_verifier : String) → Option String
google_url js config s code_verifier =
    elim (js.parse_url "https://accounts.google.com/o/oauth2/v2/auth") [
      | none ↦ none
      | some url ↦ some (js.href (set_params js (google_params js config s code_verifier) url))
    ]

abbrev pub with_verifier : OAuthSession → String → OAuthSession
with_verifier s code_verifier = record s { code_verifier = some code_verifier }

module _ (js : Js) {r : Redis} (sch : Schedule r) (config : Config) where
  unfoldable pub read_session : (cookie : Option String) → Handler r (String × OAuthSession)
  read_session none = throw bad_request
  read_session (some id) = λ w.
      let now = sch.gap 1 w in
      elim (get_session r (sch.at 1) id now.redis) [
        | none ↦ throw bad_request now
        | some s ↦ (reply (id, s), now)
      ]

  -- `sessions.update`, on the whole state: TTL and SET are two steps.
  unfoldable pub keep_verifier : (k : ℕ) → (id : String) → OAuthSession → Handler r Unit
  keep_verifier k id changed w =
      let timed = sch.gap k w in
      let now = sch.gap (k + 1) timed in
      let seconds = or_full (positive (r.ttl (sch.at k) (session_prefix ++ id) timed.redis)) in
      (
        reply tt,
        record now {
          redis =
              r.set_ex (sch.at (k + 1)) (session_prefix ++ id) (session changed) seconds now.redis;
        },
      )

  unfoldable pub to_google : OAuthSession → (code_verifier : String) → Handler r String
  to_google s code_verifier = elim (google_url js config s code_verifier) [
    | none ↦ throw internal_error
    | some url ↦ pure url
  ]

  -- `code_verifier` is base64url(randomBytes(64)).
  unfoldable pub handle_start :
      (code_verifier : String) → (cookie : Option String) → (ip : String) → Handler r String
  handle_start code_verifier cookie ip = do
    _ ← limit_rate sch 0 oauth_google_start ip
    (id, found) ← read_session (given cookie)
    _ ← keep_verifier 2 id (with_verifier found code_verifier)
    to_google found code_verifier
