-- ===== src/Exchange/Registration.antt =====
-- POST /internal/v1/registration/exchange: src/exchange/registration-exchange.controller.ts.
use kisauth.Base.{String, Option, none, some, [], str_eq, ◌&&◌, if◌then◌else◌}
use kisauth.Js.{Js}
use kisauth.Json.{Json}
use kisauth.Redis.{Redis}
use kisauth.Records.{RegistrationTicketPayload}
use kisauth.RateLimit.{registration_exchange_per_ip, registration_exchange_per_client}
use kisauth.Challenge.{consume_registration_ticket}
use kisauth.Jwt.{AuthorizationClaims, sign}
use kisauth.Events.{
  SecurityEvent, registration_exchange_failed, registration_exchange_succeeded, success,
}
use kisauth.Service.{
  Config, Schedule, Handler, bad_request, internal_error, ◌>>=◌, pure, throw, emit, reply, failed,
}
use kisauth.Exchange.{ExchangeRequest, Fields, exchange_failure, admit}

abbrev pub registration_url : String
registration_url = "/internal/v1/registration/exchange"

abbrev pub ticket_claims : RegistrationTicketPayload → AuthorizationClaims
ticket_claims payload = record {
  sub = none;
  aud = payload.client_id;
  purpose = payload.purpose;
  auth_identity_id = none;
  provider_subject = some payload.provider_subject;
  provider_email = payload.provider_email;
  provider_email_verified = payload.provider_email_verified;
  provider = some payload.provider;
  partner_slug = payload.partner_slug;
}

abbrev pub registration_success : ExchangeRequest → RegistrationTicketPayload → SecurityEvent
registration_success req payload = record {
  event_type = registration_exchange_succeeded;
  outcome = success;
  kis_user_id = none;
  client_id = some payload.client_id;
  reason = none;
  ip = some req.ip;
  metadata = [];
}

module _ (js : Js) (rs256 : (pem kid : String) → Json → Option String) {r : Redis}
    (sch : Schedule r) (config : Config) where
  unfoldable pub refuse_registration : {A : Type 0} → ExchangeRequest → String → Handler r A
  refuse_registration req reason = do
    _ ← emit (exchange_failure registration_exchange_failed req none reason)
    throw bad_request

  unfoldable pub take_ticket : ExchangeRequest → String → Handler r RegistrationTicketPayload
  take_ticket req code w =
      let now = sch.gap 3 w in
      let (payload, σ) = consume_registration_ticket r (sch.at 3) code now.redis in
      let taken = record now { redis = σ } in
      elim payload [
        | none ↦ refuse_registration req "ticket_invalid_or_reused" taken
        | some payload ↦ (reply payload, taken)
      ]

  unfoldable pub match_ticket :
      ExchangeRequest → Fields → RegistrationTicketPayload → Handler r Unit
  match_ticket req fields payload =
      if str_eq payload.client_id fields.client_id
        && str_eq payload.redirect_uri fields.redirect_uri
      then pure tt
      else refuse_registration req "redirect_uri_or_client_mismatch"

  unfoldable pub sign_ticket_token : (jti : String) → RegistrationTicketPayload → Handler r String
  sign_ticket_token jti payload w =
      let now = sch.gap 4 w in
      elim (sign rs256 (sch.at 4) jti config (ticket_claims payload) config.auth_code_ttl_seconds) [
        | none ↦ (failed internal_error, now)
        | some token ↦ (reply token, now)
      ]

  unfoldable pub exchange_registration : (jti : String) → ExchangeRequest → Handler r String
  exchange_registration jti req = do
    fields ←
        admit js sch config registration_url registration_exchange_per_ip
          registration_exchange_per_client registration_exchange_failed req
    payload ← take_ticket req fields.code
    _ ← match_ticket req fields payload
    token ← sign_ticket_token jti payload
    _ ← emit (registration_success req payload)
    pure token
