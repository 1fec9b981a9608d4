-- ===== src/Exchange/Code.antt =====
-- POST /internal/v1/authorization/exchange: src/exchange/exchange.controller.ts.
use kisauth.Base.{
  ℕ, String, Option, none, some, [], ◌∷◌, str_eq, ◌&&◌, if◌then◌else◌, Bool, true, false,
}
use kisauth.Js.{Js}
use kisauth.Json.{Json}
use kisauth.Redis.{Redis}
use kisauth.Records.{AuthorizationCodePayload}
use kisauth.RateLimit.{exchange_per_ip, exchange_per_client}
use kisauth.Challenge.{consume_authorization_code}
use kisauth.Identity.{AuthIdentity, Status, active, revoked, find_by_id}
use kisauth.Jwt.{AuthorizationClaims, sign}
use kisauth.Events.{SecurityEvent, exchange_failed, exchange_succeeded, success}
use kisauth.Service.{
  Config, Schedule, Handler, bad_request, internal_error, ◌>>=◌, pure, throw, emit, reply, failed,
}
use kisauth.Exchange.{ExchangeRequest, Fields, exchange_failure, admit}

abbrev pub exchange_url : String
exchange_url = "/internal/v1/authorization/exchange"

abbrev pub is_active : Status → Bool
is_active active = true
is_active revoked = false

-- The identity may vouch for the code.
abbrev pub is_current : AuthorizationCodePayload → AuthIdentity → Bool
is_current payload identity =
    is_active identity.status && str_eq identity.kis_user_id payload.kis_user_id

abbrev pub code_claims : AuthorizationCodePayload → AuthIdentity → AuthorizationClaims
code_claims payload identity = record {
  sub = some payload.kis_user_id;
  aud = payload.client_id;
  purpose = payload.purpose;
  auth_identity_id = some payload.auth_identity_id;
  provider_subject = none;
  provider_email = identity.provider_email;
  provider_email_verified = identity.provider_email_verified;
  provider = none;
  partner_slug = none;
}

abbrev pub exchange_success : ExchangeRequest → AuthorizationCodePayload → SecurityEvent
exchange_success req payload = record {
  event_type = exchange_succeeded;
  outcome = success;
  kis_user_id = some payload.kis_user_id;
  client_id = some payload.client_id;
  reason = none;
  ip = some req.ip;
  metadata = ("purpose", some payload.purpose) ∷ [];
}

module _ (js : Js) (uuid : String → Option String)
    (rs256 : (pem kid : String) → Json → Option String) {r : Redis} (sch : Schedule r)
    (config : Config) where
  unfoldable pub refuse_exchange :
      {A : Type 0} → ExchangeRequest → Option String → String → Handler r A
  refuse_exchange req kis_user_id reason = do
    _ ← emit (exchange_failure exchange_failed req kis_user_id reason)
    throw bad_request

  unfoldable pub take_code : ExchangeRequest → String → Handler r AuthorizationCodePayload
  take_code req code w =
      let now = sch.gap 3 w in
      let (payload, σ) = consume_authorization_code r (sch.at 3) code now.redis in
      let taken = record now { redis = σ } in
      elim payload [
        | none ↦ refuse_exchange req none "code_invalid_or_reused" taken
        | some payload ↦ (reply payload, taken)
      ]

  unfoldable pub match_code : ExchangeRequest → Fields → AuthorizationCodePayload → Handler r Unit
  match_code req fields payload =
      if str_eq payload.client_id fields.client_id
        && str_eq payload.redirect_uri fields.redirect_uri
      then pure tt
      else refuse_exchange req none "redirect_uri_or_client_mismatch"

  unfoldable pub find_identity : String → Handler r (Option AuthIdentity)
  find_identity id w =
      let now = sch.gap 4 w in
      elim (find_by_id uuid id now.identities) [
        | none ↦ (failed internal_error, now)
        | some identity ↦ (reply identity, now)
      ]

  unfoldable pub vouch :
      ExchangeRequest → AuthorizationCodePayload → Option AuthIdentity → Handler r AuthIdentity
  vouch req payload none = refuse_exchange req (some payload.kis_user_id) "identity_not_found"
  vouch req payload (some identity) =
      if is_current payload identity
      then pure identity
      else refuse_exchange req (some payload.kis_user_id) "identity_revoked"

  unfoldable pub sign_token : (k : ℕ) → (jti : String) → AuthorizationClaims → Handler r String
  sign_token k jti claims w =
      let now = sch.gap k w in
      elim (sign rs256 (sch.at k) jti config claims config.auth_code_ttl_seconds) [
        | none ↦ (failed internal_error, now)
        | some token ↦ (reply token, now)
      ]

  unfoldable pub exchange : (jti : String) → ExchangeRequest → Handler r String
  exchange jti req = do
    fields ←
        admit js sch config exchange_url exchange_per_ip exchange_per_client exchange_failed req
    payload ← take_code req fields.code
    _ ← match_code req fields payload
    found ← find_identity payload.auth_identity_id
    identity ← vouch req payload found
    token ← sign_token 5 jti (code_claims payload identity)
    _ ← emit (exchange_success req payload)
    pure token
