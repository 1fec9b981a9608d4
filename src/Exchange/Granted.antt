-- ===== src/Exchange/Granted.antt =====
-- What stands behind every token of POST /internal/v1/authorization/exchange
-- (src/exchange/exchange.controller.ts).
use kisauth.Base.{
  ℕ, ◌∷◌, true, String, Option, none, some, ◌≡◌, refl, arith, Option-cases, Bool-cases, inl, inr,
  eq_iff, ap, ◌∙◌, List,
}
use kisauth.Js.{Js}
use kisauth.Json.{Json}
use kisauth.Redis.{Redis}
use kisauth.Records.{AuthorizationCodePayload}
use kisauth.RateLimit.{exchange_per_ip, exchange_per_client}
use kisauth.Challenge.{consume_authorization_code}
use kisauth.Identity.{AuthIdentity, active, revoked, Status, find_by_id}
use kisauth.Jwt.{sign}
use kisauth.Events.{exchange_failed, SecurityEvent}
use kisauth.Service.{Config, World, Schedule, ◌>>=◌}
use kisauth.Service.Laws.{Returns, bind_returns, emit_returns}
use kisauth.Exchange.{ExchangeRequest, Fields}
use kisauth.Exchange.Admission.{Admitted, admit-Admitted}
use kisauth.Exchange.Code.{
  exchange_url, is_active, is_current, code_claims, exchange_success, refuse_exchange, take_code,
  match_code, find_identity, vouch, sign_token, exchange,
}

is_active-true : (s : Status) → is_active s ≡ true → s ≡ active
is_active-true active h = refl
is_active-true revoked h = ground arith

module _ (js : Js) (uuid : String → Option String)
    (rs256 : (pem kid : String) → Json → Option String) {r : Redis} (sch : Schedule r)
    (config : Config) where
  pub take_code_returns :
      (req : ExchangeRequest) (code : String) (w w' : World r) (payload : AuthorizationCodePayload)
      → Returns (take_code js uuid rs256 sch config req code) w payload w'
      → (consume_authorization_code r (sch.at 3) code (sch.gap 3 w).redis).0 ≡ some payload
  unfolding take_code refuse_exchange ◌>>=◌
  take_code_returns req code w w' payload h =
      elim (Option-cases (consume_authorization_code r (sch.at 3) code (sch.gap 3 w).redis).0) [
        | inl missing ↦ ground arith
        | inr (found, e) ↦ ground arith
      ]

  match_code_returns :
      (req : ExchangeRequest) (fields : Fields) (payload : AuthorizationCodePayload)
      (w w' : World r)
      → Returns (match_code js uuid rs256 sch config req fields payload) w tt w'
      → (payload.client_id ≡ fields.client_id) × (payload.redirect_uri ≡ fields.redirect_uri)
  unfolding match_code refuse_exchange ◌>>=◌
  match_code_returns req fields payload w w' h = ground (
    arith,
    eq_iff payload.client_id fields.client_id,
    eq_iff payload.redirect_uri fields.redirect_uri,
  )

  find_identity_returns :
      (id : String) (w w' : World r) (found : Option AuthIdentity)
      → Returns (find_identity js uuid rs256 sch config id) w found w'
      → find_by_id uuid id (sch.gap 4 w).identities ≡ some found
  unfolding find_identity
  find_identity_returns id w w' found h =
      elim (Option-cases (find_by_id uuid id (sch.gap 4 w).identities)) [
        | inl missing ↦ ground arith
        | inr (identity, e) ↦ ground arith
      ]

  is_current_lem :
      (payload : AuthorizationCodePayload) (identity : AuthIdentity)
      → is_current payload identity ≡ true
      → (identity.status ≡ active) × (identity.kis_user_id ≡ payload.kis_user_id)
  is_current_lem payload identity h = (
    is_active-true identity.status (ground arith),
    (eq_iff identity.kis_user_id payload.kis_user_id).0 (ground arith),
  )

  vouch_returns :
      (req : ExchangeRequest) (payload : AuthorizationCodePayload) (found : Option AuthIdentity)
      (w w' : World r) (identity : AuthIdentity)
      → Returns (vouch js uuid rs256 sch config req payload found) w identity w'
      → (found ≡ some identity)
        × (identity.status ≡ active)
        × (identity.kis_user_id ≡ payload.kis_user_id)
  unfolding vouch refuse_exchange ◌>>=◌
  vouch_returns req payload none w w' identity h = ground arith
  vouch_returns req payload (some i) w w' identity h = elim (Bool-cases (is_current payload i)) [
    | inr stale ↦ ground arith
    | inl current ↦
        let same : i ≡ identity = ground arith in
        let (a, b) = is_current_lem payload identity (rw same at current) in (ap some same, a, b)
  ]

  sign_token_returns :
      (k : ℕ) (jti : String) (payload : AuthorizationCodePayload) (identity : AuthIdentity)
      (w w' : World r) (token : String)
      → Returns
          (sign_token js uuid rs256 sch config k jti (code_claims payload identity))
          w
          token
          w'
      → sign rs256 (sch.at k) jti config (code_claims payload identity) config.auth_code_ttl_seconds
        ≡ some token
  unfolding sign_token
  sign_token_returns k jti payload identity w w' token h =
      elim (Option-cases (
        sign rs256 (sch.at k) jti config (code_claims payload identity)
          config.auth_code_ttl_seconds)) [
            | inl failed ↦ ground arith
            | inr (made, e) ↦ ground arith
          ]

  -- What a token vouches for: the checks of admission, the code that was in Redis until this request
  -- took it, and the active row of the identity, each in the state that its step met.
  pub record Granted (jti : String) (req : ExchangeRequest) (w : World r) (token : String)
      (w' : World r) : Type 0 where
    pub fields : Fields
    pub admitted :
        Admitted js sch config exchange_url exchange_per_ip exchange_per_client req w fields
    pub payload : AuthorizationCodePayload
    pub identity : AuthIdentity
    pub before_code : World r
    pub before_row : World r
    pub took :
        (consume_authorization_code r (sch.at 3) fields.code (sch.gap 3 before_code).redis).0
        ≡ some payload
    pub same_client : payload.client_id ≡ fields.client_id
    pub same_redirect : payload.redirect_uri ≡ fields.redirect_uri
    pub row :
        find_by_id uuid payload.auth_identity_id (sch.gap 4 before_row).identities
        ≡ some (some identity)
    pub row_active : identity.status ≡ active
    pub same_user : identity.kis_user_id ≡ payload.kis_user_id
    pub token_signed :
        sign rs256 (sch.at 5) jti config (code_claims payload identity) config.auth_code_ttl_seconds
        ≡ some token
    pub reported :
        (events : List SecurityEvent) × (w'.events ≡ exchange_success req payload ∷ events)

  -- An exchange answers with a token only if the limits let the request through, it is signed under
  -- the secret, it took the authorization code it names from Redis, the code was issued to its client
  -- for its redirect URI, and the identity of the code is an active row of the code's account; the
  -- token is then signed for that code and row, and the success is reported.
  pub token-Granted :
      (jti : String) (req : ExchangeRequest) (w w' : World r) (token : String)
      → Returns (exchange js uuid rs256 sch config jti req) w token w'
      → Granted jti req w token w'
  unfolding exchange
  token-Granted jti req w w' token h =
      let (fields, w₁, admitted, h₁) = bind_returns _ _ w token w' h in
      let (payload, w₂, taken, h₂) = bind_returns _ _ w₁ token w' h₁ in
      let (_, w₃, matched, h₃) = bind_returns _ _ w₂ token w' h₂ in
      let (found, w₄, searched, h₄) = bind_returns _ _ w₃ token w' h₃ in
      let (identity, w₅, vouched, h₅) = bind_returns _ _ w₄ token w' h₄ in
      let (token', w₆, signed, h₆) = bind_returns _ _ w₅ token w' h₅ in
      let (same_token, reported) =
        emit_returns (exchange_success req payload) token' token w₆ w' h₆ in
      let (same_client, same_redirect) = match_code_returns req fields payload w₂ w₃ matched in
      let (same, row_active, same_user) = vouch_returns req payload found w₄ w₅ identity vouched in
      record {
        fields = fields;
        admitted =
            admit-Admitted js sch config exchange_url exchange_per_ip exchange_per_client
              exchange_failed req w w₁ fields admitted;
        payload = payload;
        identity = identity;
        before_code = w₁;
        before_row = w₃;
        took = take_code_returns req fields.code w₁ w₂ payload taken;
        same_client = same_client;
        same_redirect = same_redirect;
        row = find_identity_returns payload.auth_identity_id w₃ w₄ found searched ∙ ap some same;
        row_active = row_active;
        same_user = same_user;
        token_signed =
            sign_token_returns 5 jti payload identity w₅ w₆ token' signed ∙ ap some same_token;
        reported = (w₆.events, reported);
      }
