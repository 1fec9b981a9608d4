-- ===== src/Tests/Exchange.antt =====
-- Calls from Django on the state in memory, with nothing in between.
use kisauth.Base.{String, Option, some, none, [], ◌∷◌, refl, str_eq, if◌then◌else◌, false, true}
use kisauth.Json.{Json}
use kisauth.Signing.{
  Header, one, verify_internal_signature, outside_window, timestamp_header, nonce_header,
  signature_header,
}
use kisauth.Signing.Payload.{path_with_query, signature_payload, body_hash, body_text, sign}
use kisauth.Redis.Memory.{memory, nothing}
use kisauth.RateLimit.{check, rate_limits}
use kisauth.Challenge.{
  issue_authorization_code, consume_authorization_code, issue_registration_ticket,
  consume_registration_ticket,
}
use kisauth.Identity.{Row, active, find_by_id, find_by_provider_subject, link, insert_link}
use kisauth.Jwt.{sign as token_sign}
use kisauth.LinkTicket.{same_bytes}
use kisauth.Service.{Config, World, Schedule, ◌>>=◌, counted_within, limit_rate}
use kisauth.Service.Laws.{Returns}
use kisauth.Exchange.{
  ExchangeRequest, verify_request, accept_signature, authenticate, limit_client, require_fields,
  admit,
}
use kisauth.Exchange.Code.{take_code, match_code, find_identity, vouch, sign_token, exchange}
use kisauth.Exchange.Granted.{Granted, token-Granted}
use kisauth.Exchange.Registration.{
  take_ticket, match_ticket, sign_ticket_token, exchange_registration,
}
use kisauth.Exchange.Registered.{Registered, token-Registered}
use kisauth.Tests.Runtime.{js}
use kisauth.Tests.Traffic.{payload, new_account}
use kisauth.Exchange.Link.{LinkRequest, link_identity, require_args, answer_link, handle_link}
use kisauth.Exchange.Bound.{Bound, success-Bound}

abbrev pub as_is : String → Option String
as_is s = some s

abbrev pub rs256 : String → String → Json → Option String
rs256 pem kid value = some "token"

abbrev pub config : Config
config = record {
  is_production = true;
  base_url = "https://kisauth";
  google_client_id = "gc";
  google_client_secret = "gs";
  google_redirect_uri = "https://kisauth/oauth/google/callback";
  jwt_private_key_pem = "pem";
  jwt_public_key_pem = "pub";
  jwt_kid = "k1";
  jwt_previous_keys = record { kid = "k0"; public_key_pem = "old" } ∷ [];
  internal_hmac_secret = "k";
  internal_signature_max_skew_seconds = 30;
  django_security_event_url = "https://django/event";
  django_sso_config_url = "https://django/sso";
  challenge_ttl_seconds = 30;
  auth_code_ttl_seconds = 60;
  challenge_max_attempts = 5;
}

abbrev pub quiet : Schedule memory
quiet = record { at = λ k. 2000; clock = λ k. 2000; gap = λ k w. w }

abbrev pub row : Row
row = record {
  identity = record {
    id = "i1";
    provider = "google";
    provider_subject = "g1";
    kis_user_id = "u1";
    provider_email = none;
    provider_email_verified = false;
    status = active;
  };
  last_authenticated_at = none;
}

abbrev pub world : memory.State → World memory
world σ = record {
  redis = σ;
  nonces = [];
  clients = [];
  identities = row ∷ [];
  providers = [];
  documents = [];
  events = [];
}

abbrev headers : (signature : String) → String → Option Header
headers signature name =
    if str_eq name timestamp_header
    then some (one "n11")
    else if str_eq name nonce_header
    then some (one "abc")
    else if str_eq name signature_header
    then some (one signature)
    else none

abbrev asking : (signature : String) → ExchangeRequest
asking signature = record {
  body = none;
  code = some "abc";
  client_id = some "kis-django";
  redirect_uri = some "https://app/cb";
  headers = headers signature;
  ip = "::1";
}

abbrev pub code_request : ExchangeRequest
code_request = asking "hkPOST\n/internal/v1/authorization/exchange\nn11\nabc\n"

abbrev pub issued : World memory
issued = world (issue_authorization_code memory 1000 "abc" payload 60 nothing).1

pub redeemed :
    Returns
      (exchange js as_is rs256 quiet config "j1" code_request)
      issued
      "token"
      (exchange js as_is rs256 quiet config "j1" code_request issued).1
unfolding exchange admit limit_rate counted_within limit_client authenticate verify_request
    accept_signature require_fields take_code match_code find_identity vouch sign_token ◌>>=◌ check
    rate_limits verify_internal_signature path_with_query signature_payload body_hash body_text sign
    outside_window consume_authorization_code issue_authorization_code find_by_id same_bytes
    token_sign
redeemed = refl

token-Granted_example :
    Granted js as_is rs256 quiet config "j1" code_request issued "token"
      (exchange js as_is rs256 quiet config "j1" code_request issued).1
token-Granted_example =
    token-Granted js as_is rs256 quiet config "j1" code_request issued _ "token" redeemed

abbrev ticket_request : ExchangeRequest
ticket_request = asking "hkPOST\n/internal/v1/registration/exchange\nn11\nabc\n"

abbrev ticketed : World memory
ticketed = world (issue_registration_ticket memory 1000 "abc" new_account 60 nothing).1

registered :
    Returns
      (exchange_registration js rs256 quiet config "j1" ticket_request)
      ticketed
      "token"
      (exchange_registration js rs256 quiet config "j1" ticket_request ticketed).1
unfolding exchange_registration admit limit_rate counted_within limit_client authenticate
    verify_request accept_signature require_fields take_ticket match_ticket sign_ticket_token ◌>>=◌
    check rate_limits verify_internal_signature path_with_query signature_payload body_hash
    body_text sign outside_window consume_registration_ticket issue_registration_ticket same_bytes
    token_sign
registered = refl

token-Registered_example :
    Registered js rs256 quiet config "j1" ticket_request ticketed "token"
      (exchange_registration js rs256 quiet config "j1" ticket_request ticketed).1
token-Registered_example =
    token-Registered js rs256 quiet config "j1" ticket_request ticketed _ "token" registered

abbrev link_request : LinkRequest
link_request = record {
  body = none;
  provider = some "google";
  provider_subject = some "g2";
  kis_user_id = some "u2";
  provider_email = none;
  provider_email_verified = none;
  headers = headers "hkPOST\n/internal/v1/identity/link\nn11\nabc\n";
}

linked_up :
    Returns
      (handle_link js as_is {r = memory} quiet config "i2" link_request)
      (world nothing)
      "i2"
      (handle_link js as_is {r = memory} quiet config "i2" link_request (world nothing)).1
unfolding handle_link authenticate verify_request accept_signature require_args link_identity
    answer_link ◌>>=◌ verify_internal_signature path_with_query signature_payload body_hash
    body_text sign outside_window same_bytes link insert_link find_by_provider_subject
linked_up = refl

success-Bound_example :
    Bound js as_is {r = memory} quiet config link_request
      (world nothing)
      "i2"
      (handle_link js as_is {r = memory} quiet config "i2" link_request (world nothing)).1
success-Bound_example =
    success-Bound js as_is {r = memory} quiet config "i2" link_request (world nothing) _ "i2"
      (tt, tt) (λ k w u. (u, λ provider subject i h. (i, h, refl, refl))) linked_up
