-- ===== src/Exchange.antt =====
-- src/exchange: the calls that Django makes to redeem a code or a ticket, and to link an identity.
-- This file has what the handlers of exchange.controller.ts and registration-exchange.controller.ts
-- do alike.
pub mod Code
pub mod Registration
pub mod Registered
pub mod Link
pub mod Bound
pub mod Admission
pub mod Granted
pub mod Completed
pub mod Recovered
pub mod Spent
pub mod Once
use kisauth.Base.{ℕ, String, Option, none, some, []}
use kisauth.Js.{Js}
use kisauth.Json.{Json}
use kisauth.Redis.{Redis}
use kisauth.RateLimit.{Limit}
use kisauth.Signing.{
  Header, Request, ok, refused, thrown, VerifyResult, given, verify_internal_signature,
}
use kisauth.Events.{EventType, SecurityEvent, failure}
use kisauth.Service.{
  Config, Schedule, Handler, unauthorized, bad_request, internal_error, ◌>>=◌, pure, throw, emit,
  limit_rate, reply,
}

-- A request to an exchange: the parsed body, of which the fields are texts as their type says, the
-- headers and the address of the peer.
pub record ExchangeRequest : Type 0 where
  pub body : Option Json
  pub code : Option String
  pub client_id : Option String
  pub redirect_uri : Option String
  pub headers : String → Option Header
  pub ip : String

-- The fields of a body that has them all.
pub record Fields : Type 0 where
  pub code : String
  pub client_id : String
  pub redirect_uri : String

abbrev pub exchange_failure : EventType → ExchangeRequest → Option String → String → SecurityEvent
exchange_failure event_type req kis_user_id reason = record {
  event_type = event_type;
  outcome = failure;
  kis_user_id = kis_user_id;
  client_id = req.client_id;
  reason = some reason;
  ip = some req.ip;
  metadata = [];
}

-- The request as verifyInternalSignature is given it.
abbrev pub signed_request : (url : String) → Option Json → (String → Option Header) → Request
signed_request url body headers = record {
  method = "POST";
  url = url;
  body = body;
  headers = headers;
}

-- `if (!body.code || !body.client_id || !body.redirect_uri) throw …`
abbrev pub read_fields : (code client_id redirect_uri : Option String) → Option Fields
read_fields (some code) (some client_id) (some redirect_uri) =
    some (record { code = code; client_id = client_id; redirect_uri = redirect_uri })
read_fields _ _ _ = none

module _ (js : Js) {r : Redis} (sch : Schedule r) (config : Config) where
  unfoldable pub verify_request :
      (k : ℕ) → (url : String) → Option Json → (String → Option Header) → Handler r VerifyResult
  verify_request k url body headers w =
      let now = sch.gap k w in
      let (result, nonces) =
        verify_internal_signature js (sch.clock k) (sch.at k) (signed_request url body headers)
          config.internal_hmac_secret config.internal_signature_max_skew_seconds now.nonces in
      (reply result, record now { nonces = nonces })

  -- What follows a verification; `event` is reported of a request that is not signed.
  unfoldable pub accept_signature : Option SecurityEvent → VerifyResult → Handler r Unit
  accept_signature event ok = pure tt
  accept_signature none (refused reason) = throw unauthorized
  accept_signature (some event) (refused reason) = do _ ← emit event; throw unauthorized
  accept_signature event thrown = throw internal_error

  unfoldable pub authenticate :
      (k : ℕ)
      → (url : String) → Option Json
      → (String → Option Header)
      → Option SecurityEvent
      → Handler r Unit
  authenticate k url body headers event = do
    result ← verify_request k url body headers
    accept_signature event result

  -- `if (body.client_id) { … }`
  unfoldable pub limit_client : (k : ℕ) → Limit → Option String → Handler r Unit
  limit_client k limit none = pure tt
  limit_client k limit (some client_id) = limit_rate sch k limit client_id

  unfoldable pub require_fields : ExchangeRequest → Handler r Fields
  require_fields req =
      elim (read_fields (given req.code) (given req.client_id) (given req.redirect_uri)) [
        | none ↦ throw bad_request
        | some fields ↦ pure fields
      ]

  -- The limits, the signature and the fields, as both handlers begin. Steps 0, 1 and 2.
  unfoldable pub admit :
      (url : String) → (per_ip per_client : Limit) → EventType → ExchangeRequest → Handler r Fields
  admit url per_ip per_client failed_event req = do
    _ ← limit_rate sch 0 per_ip req.ip
    _ ← limit_client 1 per_client (given req.client_id)
    _ ←
        authenticate 2 url req.body req.headers
          (some (exchange_failure failed_event req none "signature_invalid"))
    require_fields req
