-- ===== src/Oauth/Started.antt =====
-- What a redirection to Google by src/oauth/oauth.controller.ts leaves in the session.
use kisauth.Base.{
  ℕ, ◌+◌, ◌*◌, ◌≤◌, String, Option, none, some, ◌≡◌, arith, Option-cases, Bool-cases, inl, inr, ap,
  sym, ◌∙◌, eq_refl, ltb,
}
use kisauth.Base.Texts.{◌++◌}
use kisauth.Js.{Js}
use kisauth.Redis.{Redis}
use kisauth.Records.{OAuthSession, as_session, ◌>>=◌}
use kisauth.Records
use kisauth.RateLimit.{oauth_google_start}
use kisauth.Keys.{session_prefix}
use kisauth.Session.{get_session, or_full}
use kisauth.Challenge.{positive}
use kisauth.Service.{Config, World, Schedule}
use kisauth.Service.Laws.{Returns, reply_inj}
use kisauth.Exchange.Admission.{IsAllowed}
use kisauth.Oauth.Start.{with_verifier, read_session, keep_verifier}

module _ (js : Js) {r : Redis} (sch : Schedule r) (config : Config) where
  -- A page with the parameters of an authorization request for a code, whose challenge is the SHA-256
  -- of a verifier.
  abbrev pub requesting :
      (client_id redirect_uri state nonce code_verifier : String) → js.Url → js.Url
  requesting client_id redirect_uri state nonce code_verifier page =
      js.set_param "code_challenge_method" "S256" (
        js.set_param "code_challenge" (js.sha256_base64url code_verifier) (
          js.set_param "nonce" nonce (
            js.set_param "state" state (
              js.set_param "scope" "openid email profile" (
                js.set_param "response_type" "code" (
                  js.set_param "redirect_uri" redirect_uri
                    (js.set_param "client_id" client_id page)))))))

  -- The URL is that of Google's authorization page, with the client of the service, the state and the
  -- nonce of the session and the challenge of the verifier.
  abbrev pub IsGoogleRequest : OAuthSession → (code_verifier url : String) → Type 0
  IsGoogleRequest s code_verifier url =
      (page : js.Url) × (js.parse_url "https://accounts.google.com/o/oauth2/v2/auth" ≡ some page)
      × (url
          ≡ js.href (
              requesting config.google_client_id config.google_redirect_uri s.state s.nonce
                code_verifier page))

  -- The cookie names a live session; the browser goes to Google with its state, its nonce and the
  -- challenge of the verifier, and the session that is read from then on is this one with the
  -- verifier.
  pub record Started (code_verifier : String) (cookie : Option String) (ip : String) (w : World r)
      (url : String) (w' : World r) : Type 0 where
    pub session_id : String
    pub found : OAuthSession
    pub before : World r
    pub allowed : IsAllowed js sch config 0 oauth_google_start ip w
    pub has_cookie : cookie ≡ some session_id
    pub live : get_session r (sch.at 1) session_id (sch.gap 1 before).redis ≡ some found
    pub leads : IsGoogleRequest found code_verifier url
    pub kept :
        (t : ℕ) (s : OAuthSession)
        → sch.at 3 ≤ t
        → get_session r t session_id w'.redis ≡ some s
        → s ≡ with_verifier found code_verifier

  pub read_session_returns :
      (cookie : Option String) (id : String) (found : OAuthSession) (w w' : World r)
      → Returns (read_session js sch config cookie) w (id, found) w'
      → (cookie ≡ some id) × (get_session r (sch.at 1) id (sch.gap 1 w).redis ≡ some found)
  unfolding read_session
  read_session_returns none id found w w' h = ground arith
  read_session_returns (some c) id found w w' h =
      elim (Option-cases (get_session r (sch.at 1) c (sch.gap 1 w).redis)) [
        | inl missing ↦ ground arith
        | inr (s, e) ↦
            let same : ◌≡◌ {A = String × OAuthSession} (c, s) (id, found) =
              reply_inj (ap (λ x. x.0) (rw (e, read_session) at h)) in
            (
              ap (λ x. some x.0) same,
              ap (λ x. get_session r (sch.at 1) x.0 (sch.gap 1 w).redis) (sym same)
                  ∙ e
                  ∙ ap (λ x. some x.1) same,
            )
      ]

  pub keep_verifier_returns :
      (k : ℕ) (id : String) (s found : OAuthSession) (w w' : World r) (t : ℕ)
      → Returns (keep_verifier js sch config k id s) w tt w'
      → sch.at (k + 1) ≤ t
      → get_session r t id w'.redis ≡ some found
      → found ≡ s
  unfolding keep_verifier get_session
  keep_verifier_returns k id s found w w' t h later read =
      let key = session_prefix ++ id in
      let timed = sch.gap k w in
      let seconds = or_full (positive (r.ttl (sch.at k) key timed.redis)) in
      let at_key =
        ap (r.get t key) (ap (λ x. x.1.redis) (sym h))
        ∙ r.get-set_ex (sch.at (k + 1)) t key key (Records.session s) seconds
            (sch.gap (k + 1) timed).redis later in
      elim (Bool-cases (ltb t (sch.at (k + 1) + seconds * 1000))) [
        | inl live ↦ ground (arith, at_key, eq_refl key)
        | inr over ↦ ground (arith, at_key, eq_refl key)
      ]
