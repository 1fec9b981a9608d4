-- ===== src/Events/Forward.antt =====
-- emit of src/security/security-event.service.ts: an event is posted to Django, and what goes wrong is
-- logged and never thrown.
use kisauth.Base.{ℕ, String, Option, none, some, List, [], ◌∷◌, if◌then◌else◌}
use kisauth.Base.Texts.{◌++◌}
use kisauth.Js.{Js}
use kisauth.Json.{Json, str, obj, Fields, field, end}
use kisauth.Jwt.{or_null}
use kisauth.Partner.{Answer, is_ok}
use kisauth.Signing.{given, signed_internal_headers}
use kisauth.Service.{Config}
use kisauth.Events.{
  EventType, oauth_callback_succeeded, oauth_callback_failed, oauth_identity_not_linked,
  oauth_cancelled, exchange_succeeded, exchange_failed, link_succeeded, link_failed,
  link_already_linked, registration_ticket_issued, registration_already_registered,
  registration_exchange_succeeded, registration_exchange_failed, oauth_enterprise_config_failed,
  EventOutcome, success, failure, SecurityEvent,
}

unfoldable pub type_text : EventType → String
type_text oauth_callback_succeeded = "oauth.callback_succeeded"
type_text oauth_callback_failed = "oauth.callback_failed"
type_text oauth_identity_not_linked = "oauth.identity_not_linked"
type_text oauth_cancelled = "oauth.cancelled"
type_text exchange_succeeded = "exchange.succeeded"
type_text exchange_failed = "exchange.failed"
type_text link_succeeded = "link.succeeded"
type_text link_failed = "link.failed"
type_text link_already_linked = "link.already_linked"
type_text registration_ticket_issued = "registration.ticket_issued"
type_text registration_already_registered = "registration.already_registered"
type_text registration_exchange_succeeded = "registration.exchange_succeeded"
type_text registration_exchange_failed = "registration.exchange_failed"
type_text oauth_enterprise_config_failed = "oauth.enterprise_config_failed"

unfoldable pub outcome_text : EventOutcome → String
outcome_text success = "success"
outcome_text failure = "failure"

abbrev pub metadata_fields : List (String × Option String) → Fields
metadata_fields [] = end
metadata_fields ((name, value) ∷ rest) = field name (or_null value) (metadata_fields rest)

unfoldable pub event_body : SecurityEvent → Json
unfolding type_text outcome_text
event_body event = obj (
    field "event_type" (str (type_text event.event_type)) (
      field "outcome" (str (outcome_text event.outcome)) (
        field "kis_user_id" (or_null event.kis_user_id) (
          field "client_id" (or_null event.client_id) (
            field "reason" (or_null event.reason) (
              field "ip" (or_null event.ip)
                (field "metadata" (obj (metadata_fields event.metadata)) end)))))))

abbrev pub event_path : String
event_path = "/api/v1/kis-auth/security-event/"

-- A request that is posted: its three headers, and the value whose JSON text is its body.
pub record Post : Type 0 where
  pub url : String
  pub headers : String × String × String
  pub body : Json

-- What comes of fetch, which is aborted after FORWARD_TIMEOUT_MS: a response, or an exception with its
-- message if it has one.
pub data Attempt : Type 0 where
  answered : Answer → Attempt
  thrown : Option String → Attempt

-- What emit does: the request that it posts, and the warning that it logs.
pub record Emission : Type 0 where
  pub posted : Option Post
  pub warning : Option String

-- `(err as Error)?.message ?? 'unknown error'`
abbrev pub failed_text : Option String → String
failed_text none = "security event forward failed: unknown error"
failed_text (some message) = "security event forward failed: " ++ message

module _ (js : Js) where
  unfoldable pub warning_of : Attempt → Option String
  warning_of (answered answer) =
      if is_ok answer
      then none
      else some ("security event forward rejected: " ++ js.print_nat answer.status)
  warning_of (thrown message) = some (failed_text message)

  -- `fetch` is fetch at a time. `nonce` is the random nonce of the headers.
  module _ (fetch : (at : ℕ) → Post → Attempt) (config : Config) (at : ℕ) (nonce : String) where
    -- The part of emit inside `try`; a URL that does not parse throws "Invalid URL".
    unfoldable pub post_signed : (url : String) → (body : Json) → Emission
    unfolding warning_of
    post_signed url body =
        elim (signed_internal_headers js at nonce "POST" event_path (some body)
          config.internal_hmac_secret) [
            | none ↦ record { posted = none; warning = some (failed_text (some "Invalid URL")) }
            | some headers ↦
                let post : Post = record { url = url; headers = headers; body = body } in
                record { posted = some post; warning = warning_of (fetch at post) }
          ]

    unfoldable pub forward : SecurityEvent → Emission
    forward event = elim (given (some config.django_security_event_url)) [
      | none ↦ record { posted = none; warning = none }
      | some url ↦ post_signed url (event_body event)
    ]
