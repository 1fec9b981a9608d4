-- ===== src/Exchange/Admission.antt =====
-- What a request has shown that passes the checks that both exchanges of src/exchange begin with.
use kisauth.Base.{
  ℕ, String, Option, none, some, ◌≡◌, refl, arith, Option-cases, Bool-cases, inl, inr, true,
  some_inj, ap, ◌∙◌,
}
use kisauth.Js.{Js}
use kisauth.Json.{Json}
use kisauth.Redis.{Redis}
use kisauth.RateLimit.{Limit, rate_limits, RateLimitResult, check}
use kisauth.Signing.{Header, VerifyResult, ok, refused, thrown, given, effective_skew}
use kisauth.Signing.Acceptance.{Acceptable, accepted_iff}
use kisauth.Events.{EventType, SecurityEvent}
use kisauth.Service.{Config, World, Schedule, ◌>>=◌, limit_rate, counted_within}
use kisauth.Service.Laws.{Returns, bind_returns}
use kisauth.Exchange.{
  ExchangeRequest, Fields, signed_request, verify_request, accept_signature, authenticate,
  limit_client, require_fields, read_fields, admit,
}

module _ (js : Js) {r : Redis} (sch : Schedule r) (config : Config) where
  -- The request was signed under the secret of the service, for the URL and the body, at step k,
  -- which met the state w.
  abbrev pub IsSigned : ℕ → String → Option Json → (String → Option Header) → World r → Type 0
  IsSigned k url body headers w =
      Acceptable js (sch.clock k) (sch.at k) (signed_request url body headers)
        config.internal_hmac_secret (effective_skew config.internal_signature_max_skew_seconds)
        (sch.gap k w).nonces

  -- The limiter let the hit through at step k, which met the state w.
  abbrev pub IsAllowed : ℕ → Limit → String → World r → Type 0
  IsAllowed k limit identifier w =
      let p = rate_limits limit in
      (result : RateLimitResult) × (σ : r.State) × (check r (sch.at k) p.scope identifier p.limit
          p.window_seconds (sch.gap k w).redis
        ≡ some (result, σ))
      × (result.allowed ≡ true)

  accept_signature_ok :
      (event : Option SecurityEvent) (result : VerifyResult) (w w' : World r)
      → Returns (accept_signature js sch config event result) w tt w'
      → result ≡ ok
  unfolding accept_signature ◌>>=◌
  accept_signature_ok event ok w w' h = refl
  accept_signature_ok none (refused reason) w w' h = ground arith
  accept_signature_ok (some event) (refused reason) w w' h = ground arith
  accept_signature_ok event thrown w w' h = ground arith

  pub authenticate-IsSigned :
      (k : ℕ) (url : String) (body : Option Json) (headers : String → Option Header)
      (event : Option SecurityEvent) (w w' : World r)
      → Returns (authenticate js sch config k url body headers event) w tt w'
      → IsSigned k url body headers w
  unfolding authenticate verify_request
  authenticate-IsSigned k url body headers event w w' h =
      let (result, w'', verified, rest) =
        bind_returns (verify_request js sch config k url body headers) _ w tt w' h in
      let good = accept_signature_ok event result w'' w' rest in
      (accepted_iff js (sch.clock k) (sch.at k) (signed_request url body headers)
          config.internal_hmac_secret config.internal_signature_max_skew_seconds
          (sch.gap k w).nonces).0
        (cc (verified, good))

  pub limit_rate-IsAllowed :
      (k : ℕ) (limit : Limit) (identifier : String) (w w' : World r)
      → Returns (limit_rate sch k limit identifier) w tt w'
      → IsAllowed k limit identifier w
  unfolding limit_rate counted_within
  limit_rate-IsAllowed k limit identifier w w' h =
      let (result, w'', counted, rest) =
        bind_returns (counted_within sch k limit identifier) _ w tt w' h in
      let p = rate_limits limit in
      elim (Option-cases
        (check r (sch.at k) p.scope identifier p.limit p.window_seconds (sch.gap k w).redis)) [
          | inl error ↦ ground arith
          | inr ((found, σ), checked) ↦ elim (Bool-cases result.allowed) [
            | inl allowed ↦ (found, σ, checked, ground arith)
            | inr full ↦ ground arith
          ]
        ]

  read_fields-given :
      (code client_id redirect_uri : Option String) (fields : Fields)
      → read_fields code client_id redirect_uri ≡ some fields
      → (code ≡ some fields.code)
        × (client_id ≡ some fields.client_id)
        × (redirect_uri ≡ some fields.redirect_uri)
  read_fields-given (some a) (some b) (some c) fields h =
      let e = some_inj h in
      (ap (λ f. some f.code) e, ap (λ f. some f.client_id) e, ap (λ f. some f.redirect_uri) e)
  read_fields-given _ _ _ fields h = cc

  require_fields-given :
      (req : ExchangeRequest) (w w' : World r) (fields : Fields)
      → Returns (require_fields js sch config req) w fields w'
      → (given req.code ≡ some fields.code)
        × (given req.client_id ≡ some fields.client_id)
        × (given req.redirect_uri ≡ some fields.redirect_uri)
  unfolding require_fields
  require_fields-given req w w' fields h =
      elim (Option-cases
        (read_fields (given req.code) (given req.client_id) (given req.redirect_uri))) [
          | inl missing ↦ ground arith
          | inr (found, read) ↦
              let same : found ≡ fields = ground arith in
              read_fields-given (given req.code) (given req.client_id) (given req.redirect_uri)
                fields (read ∙ ap some same)
        ]

  -- What `admit` has checked, and the states that its steps met.
  pub record Admitted (url : String) (per_ip per_client : Limit) (req : ExchangeRequest)
      (w : World r) (fields : Fields) : Type 0 where
    pub counted : World r
    pub met : World r
    pub ip_allowed : IsAllowed 0 per_ip req.ip w
    pub client_allowed : IsAllowed 1 per_client fields.client_id counted
    pub signed : IsSigned 2 url req.body req.headers met
    pub has_code : given req.code ≡ some fields.code
    pub has_client_id : given req.client_id ≡ some fields.client_id
    pub has_redirect_uri : given req.redirect_uri ≡ some fields.redirect_uri

  limit_client-IsAllowed :
      (k : ℕ) (limit : Limit) (given_id : Option String) (client_id : String) (w w' : World r)
      → given_id ≡ some client_id
      → Returns (limit_client js sch config k limit given_id) w tt w'
      → IsAllowed k limit client_id w
  unfolding limit_client
  limit_client-IsAllowed k limit none client_id w w' e h = ground arith
  limit_client-IsAllowed k limit (some c) client_id w w' e h =
      rw (some_inj e) at (limit_rate-IsAllowed k limit c w w' h)

  pub admit-Admitted :
      (url : String) (per_ip per_client : Limit) (failed_event : EventType) (req : ExchangeRequest)
      (w w' : World r) (fields : Fields)
      → Returns (admit js sch config url per_ip per_client failed_event req) w fields w'
      → Admitted url per_ip per_client req w fields
  unfolding admit
  admit-Admitted url per_ip per_client failed_event req w w' fields h =
      let (_, w₁, ip_ok, h₁) = bind_returns _ _ w fields w' h in
      let (_, w₂, client_ok, h₂) = bind_returns _ _ w₁ fields w' h₁ in
      let (_, w₃, signed, h₃) = bind_returns _ _ w₂ fields w' h₂ in
      let (code, client_id, redirect_uri) = require_fields-given req w₃ w' fields h₃ in
      record {
        counted = w₁;
        met = w₂;
        ip_allowed = limit_rate-IsAllowed 0 per_ip req.ip w w₁ ip_ok;
        client_allowed =
            limit_client-IsAllowed 1 per_client (given req.client_id) fields.client_id w₁ w₂
              client_id client_ok;
        signed = authenticate-IsSigned 2 url req.body req.headers _ w₂ w₃ signed;
        has_code = code;
        has_client_id = client_id;
        has_redirect_uri = redirect_uri;
      }
