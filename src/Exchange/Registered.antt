-- ===== src/Exchange/Registered.antt =====
-- What stands behind every token of POST /internal/v1/registration/exchange
-- (src/exchange/registration-exchange.controller.ts).
use kisauth.Base.{
  ◌∷◌, List, String, Option, some, ◌≡◌, arith, Option-cases, inl, inr, eq_iff, ap, ◌∙◌, ℕ, ◌≤◌,
  none, sym,
}
use kisauth.Js.{Js}
use kisauth.Json.{Json}
use kisauth.Redis.{Redis}
use kisauth.Records.{RegistrationTicketPayload}
use kisauth.RateLimit.{registration_exchange_per_ip, registration_exchange_per_client}
use kisauth.Challenge.{consume_registration_ticket}
use kisauth.Jwt.{sign}
use kisauth.Events.{SecurityEvent, registration_exchange_failed}
use kisauth.Service.{Config, World, Schedule, ◌>>=◌}
use kisauth.Service.Laws.{Returns, bind_returns, emit_returns, emit_keeps}
use kisauth.Exchange.{ExchangeRequest, Fields}
use kisauth.Exchange.Admission.{Admitted, admit-Admitted}
use kisauth.Exchange.Registration.{
  registration_url, ticket_claims, registration_success, refuse_registration, take_ticket,
  match_ticket, sign_ticket_token, exchange_registration,
}
use kisauth.Base.Texts.{◌++◌}
use kisauth.Keys.{reg_ticket_prefix}
use kisauth.Challenge.Consume.{consume_script_gone}

module _ (js : Js) (rs256 : (pem kid : String) → Json → Option String) {r : Redis}
    (sch : Schedule r) (config : Config) where
  take_ticket_returns :
      (req : ExchangeRequest) (code : String) (w w' : World r) (payload : RegistrationTicketPayload)
      → Returns (take_ticket js rs256 sch config req code) w payload w'
      → (consume_registration_ticket r (sch.at 3) code (sch.gap 3 w).redis).0 ≡ some payload
  unfolding take_ticket refuse_registration ◌>>=◌
  take_ticket_returns req code w w' payload h =
      elim (Option-cases (consume_registration_ticket r (sch.at 3) code (sch.gap 3 w).redis).0) [
        | inl missing ↦ ground arith
        | inr (found, e) ↦ ground arith
      ]

  take_ticket_gone :
      (req : ExchangeRequest) (code : String) (w w' : World r) (payload : RegistrationTicketPayload)
      → Returns (take_ticket js rs256 sch config req code) w payload w'
      → (t : ℕ) → sch.at 3 ≤ t
      → r.get t (reg_ticket_prefix ++ code) w'.redis ≡ none
  unfolding take_ticket refuse_registration ◌>>=◌ consume_registration_ticket
  take_ticket_gone req code w w' payload h t later =
      let taken = consume_registration_ticket r (sch.at 3) code (sch.gap 3 w).redis in
      let same : w'.redis ≡ taken.1 = elim (Option-cases taken.0) [
        | inl missing ↦ ground arith
        | inr (found, e) ↦ ap (λ x. x.1.redis) (sym (rw (e, take_ticket) at h))
      ] in
      ap (r.get t (reg_ticket_prefix ++ code)) same
      ∙ consume_script_gone r (sch.at 3) t (reg_ticket_prefix ++ code) (sch.gap 3 w).redis later

  match_ticket_keeps :
      (req : ExchangeRequest) (fields : Fields) (payload : RegistrationTicketPayload)
      (w w' : World r)
      → Returns (match_ticket js rs256 sch config req fields payload) w tt w'
      → w' ≡ w
  unfolding match_ticket refuse_registration ◌>>=◌
  match_ticket_keeps req fields payload w w' h = ground arith

  match_ticket_returns :
      (req : ExchangeRequest) (fields : Fields) (payload : RegistrationTicketPayload)
      (w w' : World r)
      → Returns (match_ticket js rs256 sch config req fields payload) w tt w'
      → (payload.client_id ≡ fields.client_id) × (payload.redirect_uri ≡ fields.redirect_uri)
  unfolding match_ticket refuse_registration ◌>>=◌
  match_ticket_returns req fields payload w w' h = ground (
    arith,
    eq_iff payload.client_id fields.client_id,
    eq_iff payload.redirect_uri fields.redirect_uri,
  )

  sign_ticket_token_returns :
      (jti : String) (payload : RegistrationTicketPayload) (w w' : World r) (token : String)
      → Returns (sign_ticket_token js rs256 sch config jti payload) w token w'
      → (sign rs256 (sch.at 4) jti config (ticket_claims payload) config.auth_code_ttl_seconds
          ≡ some token)
        × (w' ≡ sch.gap 4 w)
  unfolding sign_ticket_token
  sign_ticket_token_returns jti payload w w' token h =
      elim (Option-cases
        (sign rs256 (sch.at 4) jti config (ticket_claims payload) config.auth_code_ttl_seconds)) [
          | inl failed ↦ ground arith
          | inr (made, e) ↦ (ground arith, ground arith)
        ]

  -- What a registration token vouches for, each in the state that its step met.
  pub record Registered (jti : String) (req : ExchangeRequest) (w : World r) (token : String)
      (w' : World r) : Type 0 where
    pub fields : Fields
    pub admitted :
        Admitted js sch config registration_url registration_exchange_per_ip
          registration_exchange_per_client req w fields
    pub payload : RegistrationTicketPayload
    pub before_ticket : World r
    pub took :
        (consume_registration_ticket r (sch.at 3) fields.code (sch.gap 3 before_ticket).redis).0
        ≡ some payload
    pub after_ticket : World r
    pub gone :
        (t : ℕ)
        → sch.at 3 ≤ t
        → r.get t (reg_ticket_prefix ++ fields.code) after_ticket.redis ≡ none
    pub goes_on : w'.redis ≡ (sch.gap 4 after_ticket).redis
    pub same_client : payload.client_id ≡ fields.client_id
    pub same_redirect : payload.redirect_uri ≡ fields.redirect_uri
    pub token_signed :
        sign rs256 (sch.at 4) jti config (ticket_claims payload) config.auth_code_ttl_seconds
        ≡ some token
    pub reported :
        (events : List SecurityEvent) × (w'.events ≡ registration_success req payload ∷ events)

  -- A registration exchange answers with a token only if the limits let the request through, it is
  -- signed under the secret, it took the ticket it names from Redis, where nothing is left of it, and the ticket was issued to its
  -- client for its redirect URI; the token is then signed for that ticket's provider account and
  -- purpose, without a subject, and the success is reported.
  pub token-Registered :
      (jti : String) (req : ExchangeRequest) (w w' : World r) (token : String)
      → Returns (exchange_registration js rs256 sch config jti req) w token w'
      → Registered jti req w token w'
  unfolding exchange_registration
  token-Registered jti req w w' token h =
      let (fields, w₁, admitted, h₁) = bind_returns _ _ w token w' h in
      let (payload, w₂, taken, h₂) = bind_returns _ _ w₁ token w' h₁ in
      let (_, w₃, matched, h₃) = bind_returns _ _ w₂ token w' h₂ in
      let (token', w₄, signed, h₄) = bind_returns _ _ w₃ token w' h₃ in
      let (same_token, reported) =
        emit_returns (registration_success req payload) token' token w₄ w' h₄ in
      let (same_client, same_redirect) = match_ticket_returns req fields payload w₂ w₃ matched in
      let (made, kept) = sign_ticket_token_returns jti payload w₃ w₄ token' signed in
      record {
        fields = fields;
        admitted =
            admit-Admitted js sch config registration_url registration_exchange_per_ip
              registration_exchange_per_client registration_exchange_failed req w w₁ fields
              admitted;
        payload = payload;
        before_ticket = w₁;
        took = take_ticket_returns req fields.code w₁ w₂ payload taken;
        after_ticket = w₂;
        gone = take_ticket_gone req fields.code w₁ w₂ payload taken;
        goes_on =
            emit_keeps (registration_success req payload) token' token w₄ w' h₄
            ∙ ap (λ x. x.redis) kept
            ∙ ap (λ x. (sch.gap 4 x).redis) (match_ticket_keeps req fields payload w₂ w₃ matched);
        same_client = same_client;
        same_redirect = same_redirect;
        token_signed = made ∙ ap some same_token;
        reported = (w₄.events, reported);
      }
