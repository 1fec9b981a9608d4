-- ===== src/Exchange/Recovered.antt =====
-- A returning user's way from the callback (src/oauth/oauth-outcome.service.ts) to the token of
-- POST /internal/v1/authorization/exchange (src/exchange/exchange.controller.ts).
use kisauth.Base.{
  ℕ, ◌+◌, ◌*◌, ◌≤◌, ◌<◌, String, Option, some, ◌≡◌, refl, ap, ◌∙◌, eq_refl, lt→ltb, ◌∷◌, [],
}
use kisauth.Base.Texts.{◌++◌}
use kisauth.Js.{Js}
use kisauth.Json.{Json}
use kisauth.Keys.{code_prefix}
use kisauth.Redis.{Redis}
use kisauth.Records.{OAuthSession, AuthorizationCodePayload, code}
use kisauth.Challenge.{issue_authorization_code}
use kisauth.RateLimit.{exchange_per_ip, exchange_per_client}
use kisauth.Identity.{AuthIdentity, active, find_by_id}
use kisauth.Jwt.{sign}
use kisauth.Signing.{given}
use kisauth.Service.{Config, World, Schedule}
use kisauth.Service.Laws.{Returns}
use kisauth.Oauth.Outcome.{Randoms}
use kisauth.Oauth.Destination.{SentBack}
use kisauth.Oauth.Issued.{IsPrivate}
use kisauth.Oauth.Finish.{finalize_returning_user}
use kisauth.Oauth.Code.{HasIssued, code_payload, returning_user-HasIssued}
use kisauth.Exchange.{ExchangeRequest}
use kisauth.Exchange.Admission.{IsSigned, IsAllowed}
use kisauth.Exchange.Code.{exchange_url, code_claims, exchange}
use kisauth.Exchange.Completed.{
  after_ip, after_client, after_admission, after_code, exchange_completes,
}

module _ (js : Js) (uuid : String → Option String)
    (rs256 : (pem kid : String) → Json → Option String) {r : Redis} (sch later : Schedule r)
    (config : Config) (random : Randoms) (ip : String) where
  abbrev pub code_for : OAuthSession → AuthIdentity → AuthorizationCodePayload
  code_for session identity =
      code_payload js uuid sch config random ip session.purpose session.client_id
        identity.kis_user_id identity.id session.redirect_uri

  issued_found :
      (k t : ℕ) (payload : AuthorizationCodePayload) (σ : r.State)
      → HasIssued js uuid sch config random ip k payload σ
      → sch.at k ≤ t
      → t < sch.at k + config.auth_code_ttl_seconds * 1000
      → r.get t (code_prefix ++ random.secret) σ ≡ some (code payload)
  unfolding issue_authorization_code
  issued_found k t payload σ (σ₀, made) after before =
      let key = code_prefix ++ random.secret in
      ap (r.get t key) made
      ∙ r.get-set_ex (sch.at k) t key key (code payload) config.auth_code_ttl_seconds σ₀ after
      ∙ rw (eq_refl key, lt→ltb t (sch.at k + config.auth_code_ttl_seconds * 1000) before)

  -- A request of the session's client for the code, which is let through and signed and comes before
  -- the code expires and before any other that redeems it, while the row of the identity stands; and
  -- the token can be signed. The state is that in which the request comes.
  pub record IsRedemption (k : ℕ) (session : OAuthSession) (identity : AuthIdentity) (σ : r.State)
      (jti : String) (req : ExchangeRequest) (v : World r) (token : String) : Type 0 where
    pub has_code : given req.code ≡ some random.secret
    pub has_client_id : given req.client_id ≡ some session.client_id
    pub has_redirect_uri : given req.redirect_uri ≡ some session.redirect_uri
    pub ip_allowed : IsAllowed js later config 0 exchange_per_ip req.ip v
    pub client_allowed :
        IsAllowed js later config 1 exchange_per_client session.client_id
          (after_ip js later config exchange_per_ip req v)
    pub signed :
        IsSigned js later config 2 exchange_url req.body req.headers
          (after_client js later config exchange_per_ip exchange_per_client req v)
    pub after_issue : sch.at (k + 3 + 4) ≤ later.at 3
    pub in_time : later.at 3 < sch.at (k + 3 + 4) + config.auth_code_ttl_seconds * 1000
    pub not_redeemed :
        r.get
          (later.at 3)
          (code_prefix ++ random.secret)
          (later.gap 3 (after_admission js uuid rs256 later config req v)).redis
        ≡ r.get (later.at 3) (code_prefix ++ random.secret) σ
    pub row :
        find_by_id uuid identity.id
          (later.gap 4 (after_code js uuid rs256 later config req random.secret v)).identities
        ≡ some (some identity)
    pub signs :
        sign rs256
          (later.at 5)
          jti
          config
          (code_claims (code_for session identity) identity)
          config.auth_code_ttl_seconds
        ≡ some token

  -- A returning user who was redirected is signed in: the browser is sent to the status page with the
  -- redirect URI of the session and a code set on it, and the client's signed request for this very
  -- code is answered with a token for the account and the row of the identity, if the row is active,
  -- the request is in time and within the limits and the first to redeem the code, and the callback
  -- ran with time going forward and its challenge to itself.
  pub recovery_completes :
      (k : ℕ) (subject : String) (identity : AuthIdentity) (session : OAuthSession)
      (session_id : String) (w w' : World r) (url jti : String) (req : ExchangeRequest)
      (v : World r) (token : String)
      → IsPrivate js uuid sch config random ip
      → Returns
          (finalize_returning_user js uuid sch config random ip k subject
            (some identity)
            session
            session_id)
          w
          url
          w'
      → identity.status ≡ active
      → IsRedemption k session identity w'.redis jti req v token
      → SentBack js uuid sch config random ip "recovery_success"
          (("code", random.secret) ∷ ("state", session.client_state) ∷ [])
          session.redirect_uri
          url
        × ((v' : World r) × Returns (exchange js uuid rs256 later config jti req) v token v')
  recovery_completes k subject identity session session_id w w' url jti req v token p h is_active
        e =
      let (issued, sent) =
        returning_user-HasIssued js uuid sch config random ip k subject identity session session_id
          w w' url p h in
      (
        sent,
        exchange_completes js uuid rs256 later config jti req v token (record {
          fields = record {
            code = random.secret;
            client_id = session.client_id;
            redirect_uri = session.redirect_uri;
          };
          payload = code_for session identity;
          identity = identity;
          has_code = e.has_code;
          has_client_id = e.has_client_id;
          has_redirect_uri = e.has_redirect_uri;
          ip_allowed = e.ip_allowed;
          client_allowed = e.client_allowed;
          signed = e.signed;
          stored =
              e.not_redeemed
              ∙ issued_found (k + 3 + 4) (later.at 3) (code_for session identity) w'.redis issued
                  e.after_issue e.in_time;
          same_client = refl;
          same_redirect = refl;
          row = e.row;
          row_active = is_active;
          same_user = refl;
          signs = e.signs;
        }),
      )
