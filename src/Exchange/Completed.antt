-- ===== src/Exchange/Completed.antt =====
-- What is enough for a token of POST /internal/v1/authorization/exchange
-- (src/exchange/exchange.controller.ts).
use kisauth.Base.{ℕ, String, Option, none, some, ◌≡◌, refl, ap, eq_refl}
use kisauth.Base.Texts.{◌++◌}
use kisauth.Js.{Js}
use kisauth.Json.{Json}
use kisauth.Keys.{code_prefix}
use kisauth.Redis.{Redis}
use kisauth.Records.{AuthorizationCodePayload, code}
use kisauth.RateLimit.{Limit, exchange_per_ip, exchange_per_client}
use kisauth.Challenge.{consume_authorization_code}
use kisauth.Identity.{AuthIdentity, active, find_by_id}
use kisauth.Jwt.{sign}
use kisauth.Signing.{Header, given}
use kisauth.Signing.Acceptance.{accepted_iff}
use kisauth.Events.{SecurityEvent, EventType, exchange_failed}
use kisauth.Service.{
  Config, World, Schedule, Handler, reply, ◌>>=◌, limit_rate, counted_within, emit, pure,
}
use kisauth.Service.Laws.{Returns, returns_bind}
use kisauth.Exchange.{
  ExchangeRequest, Fields, signed_request, verify_request, accept_signature, authenticate,
  limit_client, require_fields, exchange_failure, admit,
}
use kisauth.Exchange.Admission.{IsSigned, IsAllowed}
use kisauth.Exchange.Code.{
  exchange_url, code_claims, exchange_success, take_code, match_code, find_identity, vouch,
  sign_token, exchange,
}

-- A handler that replies does so in the state that it leaves.
lands :
    {r : Redis} {A : Type 0} (m : Handler r A) (w : World r) (a : A)
    → (m w).0 ≡ reply a
    → Returns m w a (m w).1
lands m w a h = ap (λ o. (o, (m w).1)) h

module _ (js : Js) {r : Redis} (sch : Schedule r) (config : Config) where
  limit_rate_allowed :
      (k : ℕ) (limit : Limit) (identifier : String) (w : World r)
      → IsAllowed js sch config k limit identifier w
      → (limit_rate sch k limit identifier w).0 ≡ reply tt
  unfolding limit_rate counted_within ◌>>=◌
  limit_rate_allowed k limit identifier w (result, σ, checked, allowed) =
      rw (checked, limit_rate, counted_within, allowed)

  limit_client_allowed :
      (k : ℕ) (limit : Limit) (id : Option String) (client_id : String) (w : World r)
      → id ≡ some client_id
      → IsAllowed js sch config k limit client_id w
      → (limit_client js sch config k limit id w).0 ≡ reply tt
  unfolding limit_client
  limit_client_allowed k limit id client_id w e h =
      rw (e, limit_client) (limit_rate_allowed k limit client_id w h)

  authenticate_signed :
      (k : ℕ) (url : String) (body : Option Json) (headers : String → Option Header)
      (event : Option SecurityEvent) (w : World r)
      → IsSigned js sch config k url body headers w
      → (authenticate js sch config k url body headers event w).0 ≡ reply tt
  unfolding authenticate verify_request accept_signature ◌>>=◌
  authenticate_signed k url body headers event w h =
      let accepted =
        (accepted_iff js (sch.clock k) (sch.at k) (signed_request url body headers)
            config.internal_hmac_secret config.internal_signature_max_skew_seconds
            (sch.gap k w).nonces).1
          h in
      rw (accepted, authenticate, verify_request, accept_signature)

  require_fields_given :
      (req : ExchangeRequest) (fields : Fields) (w : World r)
      → given req.code ≡ some fields.code
      → given req.client_id ≡ some fields.client_id
      → given req.redirect_uri ≡ some fields.redirect_uri
      → Returns (require_fields js sch config req) w fields w
  unfolding require_fields
  require_fields_given req fields w c i u = rw (c, i, u, require_fields)

  -- The states that the checks of admission leave.
  abbrev pub after_ip : (per_ip : Limit) → ExchangeRequest → World r → World r
  after_ip per_ip req w = (limit_rate sch 0 per_ip req.ip w).1

  abbrev pub after_client : (per_ip per_client : Limit) → ExchangeRequest → World r → World r
  after_client per_ip per_client req w =
      (limit_client js sch config 1 per_client (given req.client_id) (after_ip per_ip req w)).1

  abbrev pub after_signature :
      (url : String) → (per_ip per_client : Limit) → EventType → ExchangeRequest → World r → World r
  after_signature url per_ip per_client failed_event req w =
      (authenticate js sch config 2 url req.body req.headers
        (some (exchange_failure failed_event req none "signature_invalid"))
        (after_client per_ip per_client req w)).1

  admit_completed :
      (url : String) (per_ip per_client : Limit) (failed_event : EventType) (req : ExchangeRequest)
      (fields : Fields) (w : World r)
      → given req.code ≡ some fields.code
      → given req.client_id ≡ some fields.client_id
      → given req.redirect_uri ≡ some fields.redirect_uri
      → IsAllowed js sch config 0 per_ip req.ip w
      → IsAllowed js sch config 1 per_client fields.client_id (after_ip per_ip req w)
      → IsSigned js sch config 2 url req.body req.headers (after_client per_ip per_client req w)
      → Returns
          (admit js sch config url per_ip per_client failed_event req)
          w
          fields
          (after_signature url per_ip per_client failed_event req w)
  unfolding admit
  admit_completed url per_ip per_client failed_event req fields w c i u ip client signed =
      let event = some (exchange_failure failed_event req none "signature_invalid") in
      let w₁ = after_ip per_ip req w in
      let w₂ = after_client per_ip per_client req w in
      let w₃ = after_signature url per_ip per_client failed_event req w in
      returns_bind _ _ w w₁ w₃ tt fields
        (lands (limit_rate sch 0 per_ip req.ip) w tt (limit_rate_allowed 0 per_ip req.ip w ip))
        (returns_bind _ _ w₁ w₂ w₃ tt fields
          (lands (limit_client js sch config 1 per_client (given req.client_id)) w₁ tt
            (limit_client_allowed 1 per_client (given req.client_id) fields.client_id w₁ i client))
          (returns_bind _ _ w₂ w₃ w₃ tt fields
            (lands (authenticate js sch config 2 url req.body req.headers event) w₂ tt
              (authenticate_signed 2 url req.body req.headers event w₂ signed))
            (require_fields_given req fields w₃ c i u)))

module _ (js : Js) (uuid : String → Option String)
    (rs256 : (pem kid : String) → Json → Option String) {r : Redis} (sch : Schedule r)
    (config : Config) where
  -- The state of the exchange once the request is admitted, and once its code is taken.
  abbrev pub after_admission : ExchangeRequest → World r → World r
  after_admission req w =
      after_signature js sch config exchange_url exchange_per_ip exchange_per_client exchange_failed
        req w

  abbrev pub after_code : ExchangeRequest → (code : String) → World r → World r
  after_code req c w = (take_code js uuid rs256 sch config req c (after_admission req w)).1

  -- The request passes the limits, is signed and names a code that Redis holds for its client and
  -- redirect URI, and whose identity is an active row of its account; and the token can be signed.
  pub record IsEnough (jti : String) (req : ExchangeRequest) (w : World r) (token : String)
      : Type 0 where
    pub fields : Fields
    pub payload : AuthorizationCodePayload
    pub identity : AuthIdentity
    pub has_code : given req.code ≡ some fields.code
    pub has_client_id : given req.client_id ≡ some fields.client_id
    pub has_redirect_uri : given req.redirect_uri ≡ some fields.redirect_uri
    pub ip_allowed : IsAllowed js sch config 0 exchange_per_ip req.ip w
    pub client_allowed :
        IsAllowed js sch config 1 exchange_per_client fields.client_id
          (after_ip js sch config exchange_per_ip req w)
    pub signed :
        IsSigned js sch config 2 exchange_url req.body req.headers
          (after_client js sch config exchange_per_ip exchange_per_client req w)
    pub stored :
        r.get (sch.at 3) (code_prefix ++ fields.code) (sch.gap 3 (after_admission req w)).redis
        ≡ some (code payload)
    pub same_client : payload.client_id ≡ fields.client_id
    pub same_redirect : payload.redirect_uri ≡ fields.redirect_uri
    pub row :
        find_by_id uuid payload.auth_identity_id
          (sch.gap 4 (after_code req fields.code w)).identities
        ≡ some (some identity)
    pub row_active : identity.status ≡ active
    pub same_user : identity.kis_user_id ≡ payload.kis_user_id
    pub signs :
        sign rs256 (sch.at 5) jti config (code_claims payload identity) config.auth_code_ttl_seconds
        ≡ some token

  take_code_completed :
      (req : ExchangeRequest) (c : String) (payload : AuthorizationCodePayload) (w : World r)
      → r.get (sch.at 3) (code_prefix ++ c) (sch.gap 3 w).redis ≡ some (code payload)
      → (take_code js uuid rs256 sch config req c w).0 ≡ reply payload
  unfolding take_code consume_authorization_code
  take_code_completed req c payload w h = rw (h, take_code, consume_authorization_code)

  match_code_completed :
      (req : ExchangeRequest) (fields : Fields) (payload : AuthorizationCodePayload) (w : World r)
      → payload.client_id ≡ fields.client_id
      → payload.redirect_uri ≡ fields.redirect_uri
      → Returns (match_code js uuid rs256 sch config req fields payload) w tt w
  unfolding match_code
  match_code_completed req fields payload w a b =
      rw (a, b, eq_refl fields.client_id, eq_refl fields.redirect_uri, match_code)

  find_identity_completed :
      (id : String) (found : Option AuthIdentity) (w : World r)
      → find_by_id uuid id (sch.gap 4 w).identities ≡ some found
      → Returns (find_identity js uuid rs256 sch config id) w found (sch.gap 4 w)
  unfolding find_identity
  find_identity_completed id found w h = rw (h, find_identity)

  vouch_completed :
      (req : ExchangeRequest) (payload : AuthorizationCodePayload) (identity : AuthIdentity)
      (w : World r)
      → identity.status ≡ active
      → identity.kis_user_id ≡ payload.kis_user_id
      → Returns (vouch js uuid rs256 sch config req payload (some identity)) w identity w
  unfolding vouch
  vouch_completed req payload identity w a b = rw (a, b, eq_refl payload.kis_user_id, vouch)

  sign_token_completed :
      (jti : String) (payload : AuthorizationCodePayload) (identity : AuthIdentity) (token : String)
      (w : World r)
      → sign rs256 (sch.at 5) jti config (code_claims payload identity) config.auth_code_ttl_seconds
        ≡ some token
      → Returns
          (sign_token js uuid rs256 sch config 5 jti (code_claims payload identity))
          w
          token
          (sch.gap 5 w)
  unfolding sign_token
  sign_token_completed jti payload identity token w h = rw (h, sign_token)

  -- A request that passes the limits, is signed and names a code that Redis holds for its client and
  -- redirect URI, of an identity that is an active row of the code's account, is answered with a token
  -- for that code and row, whatever other handlers do in between.
  pub exchange_completes :
      (jti : String) (req : ExchangeRequest) (w : World r) (token : String)
      → IsEnough jti req w token
      → (w' : World r) × Returns (exchange js uuid rs256 sch config jti req) w token w'
  unfolding exchange
  exchange_completes jti req w token e =
      let w₃ = after_admission req w in
      let w₄ = after_code req e.fields.code w in
      let w₅ = sch.gap 4 w₄ in
      let w₆ = sch.gap 5 w₅ in
      let w₇ : World r = (emit (exchange_success req e.payload) w₆).1 in
      (
        w₇,
        returns_bind _ _ w w₃ w₇ e.fields token
            (admit_completed js sch config exchange_url exchange_per_ip exchange_per_client
              exchange_failed req e.fields w e.has_code e.has_client_id e.has_redirect_uri
              e.ip_allowed e.client_allowed e.signed)
            (returns_bind _ _ w₃ w₄ w₇ e.payload token
              (lands (take_code js uuid rs256 sch config req e.fields.code) w₃ e.payload
                (take_code_completed req e.fields.code e.payload w₃ e.stored))
              (returns_bind _ _ w₄ w₄ w₇ tt token
                (match_code_completed req e.fields e.payload w₄ e.same_client e.same_redirect)
                (returns_bind _ _ w₄ w₅ w₇ (some e.identity) token
                  (find_identity_completed e.payload.auth_identity_id (some e.identity) w₄ e.row)
                  (returns_bind _ _ w₅ w₅ w₇ e.identity token
                    (vouch_completed req e.payload e.identity w₅ e.row_active e.same_user)
                    (returns_bind _ _ w₅ w₆ w₇ token token
                      (sign_token_completed jti e.payload e.identity token w₅ e.signs)
                      (returns_bind (emit (exchange_success req e.payload))
                        (λ (_ : Unit {0}). pure token) w₆ w₇ w₇ tt token refl refl)))))),
      )
