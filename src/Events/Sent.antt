-- ===== src/Events/Sent.antt =====
-- What emit of src/security/security-event.service.ts posts passes the verifier of
-- src/security/internal-signing.ts.
use kisauth.Base.{
  ℕ, ◌+◌, ◌/◌, ◌≤◌, String, some, ◌≡◌, ◌≢◌, refl, ap, none, List, [], ◌∷◌, str_eq, if◌then◌else◌,
  Bool-cases, inl, inr, Option,
}
use kisauth.Js.{Js}
use kisauth.Signing.{Cache, ok, given, effective_skew, signed_internal_headers}
use kisauth.Signing.Payload.{path_with_query}
use kisauth.Signing.Acceptance.{IsFresh}
use kisauth.Signing.RoundTrip.{Prints, carrying, verdict, signed_accepted}
use kisauth.Service.{Config}
use kisauth.Events.{SecurityEvent}
use kisauth.Events.Forward.{
  Post, Attempt, Emission, event_path, event_body, warning_of, post_signed, forward, type_text,
  outcome_text, metadata_fields,
}
use kisauth.Json.{Json, obj, Fields, member, as_string, string_field}
use kisauth.Jwt.{or_null}

-- The value of the first entry of a name.
abbrev pub noted : String → List (String × Option String) → Option String
noted name [] = none
noted name ((key, value) ∷ rest) = if str_eq key name then value else noted name rest

-- Read as an object of texts, the body says what the event says, and its metadata what the metadata
-- of the event say; null and a missing field are read as no text.
pub record Describes (body : Json) (event : SecurityEvent) : Type 0 where
  pub event_type : string_field "event_type" body ≡ some (type_text event.event_type)
  pub outcome : string_field "outcome" body ≡ some (outcome_text event.outcome)
  pub kis_user_id : string_field "kis_user_id" body ≡ event.kis_user_id
  pub client_id : string_field "client_id" body ≡ event.client_id
  pub reason : string_field "reason" body ≡ event.reason
  pub ip : string_field "ip" body ≡ event.ip
  pub metadata :
      (fields : Fields) × (member "metadata" body ≡ some (obj fields))
      × ((name : String) → string_field name (obj fields) ≡ noted name event.metadata)

as_string-or_null : (value : Option String) → as_string (or_null value) ≡ value
as_string-or_null none = refl
as_string-or_null (some s) = refl

string_field-metadata :
    (entries : List (String × Option String)) (name : String)
    → string_field name (obj (metadata_fields entries)) ≡ noted name entries
string_field-metadata [] name = refl
string_field-metadata ((key, value) ∷ rest) name = elim (Bool-cases (str_eq key name)) [
  | inl same ↦ rw same (as_string-or_null value)
  | inr other ↦ rw other (string_field-metadata rest name)
]

event_body-Describes : (event : SecurityEvent) → Describes (event_body event) event
unfolding event_body
event_body-Describes event = record {
  event_type = refl;
  outcome = refl;
  kis_user_id = as_string-or_null event.kis_user_id;
  client_id = as_string-or_null event.client_id;
  reason = as_string-or_null event.reason;
  ip = as_string-or_null event.ip;
  metadata = (metadata_fields event.metadata, refl, string_field-metadata event.metadata);
}

-- The emission posts a body that describes the event to the configured URL, under headers that are accepted for its path
-- and body, and what it logs depends on what comes of that request alone.
pub record Sends (js : Js) (laws : Prints js) (fetch : (at : ℕ) → Post → Attempt) (config : Config)
    (at checked at' skew : ℕ) (cache : Cache) (event : SecurityEvent) (emission : Emission)
    : Type 0 where
  pub post : Post
  pub posted : emission.posted ≡ some post
  pub to_django : post.url ≡ config.django_security_event_url
  pub describes : Describes post.body event
  pub accepted :
      verdict js laws checked at'
        (carrying "POST" event_path (some post.body) post.headers)
        config.internal_hmac_secret
        skew
        cache
      ≡ ok
  pub logged : emission.warning ≡ warning_of js (fetch at post)

-- What emit does with a request that is signed.
abbrev sent : (js : Js) → (fetch : (at : ℕ) → Post → Attempt) → (at : ℕ) → Post → Emission
sent js fetch at post = record { posted = some post; warning = warning_of js (fetch at post) }

module _ (js : Js) (laws : Prints js) (fetch : (at : ℕ) → Post → Attempt) (config : Config) where
  forward_made :
      (at : ℕ) (nonce url : String) (event : SecurityEvent) (headers : String × String × String)
      → given (some config.django_security_event_url) ≡ some url
      → signed_internal_headers js at nonce "POST" event_path
          (some (event_body event))
          config.internal_hmac_secret
        ≡ some headers
      → forward js fetch config at nonce event
        ≡ sent js fetch at (record { url = url; headers = headers; body = event_body event })
  unfolding forward post_signed
  forward_made at nonce url event headers set made = rw (set, made, forward, post_signed)

  -- Where a URL is configured, every event is posted to it, in a body that holds its type, its outcome, its
  -- account, client, reason and address and its metadata, under headers that the verifier of
  -- signed requests accepts for the path of the endpoint and the posted body, at any time within the
  -- skew and for a nonce that is not empty and not known there; what is logged is the warning
  -- of what comes of this request. The path must parse, Number must read back what String prints of
  -- whole numbers, and no HMAC may be empty.
  pub forward-Sends :
      (at checked at' : ℕ) (nonce path : String) (skew : ℕ) (cache : Cache) (event : SecurityEvent)
      → given (some config.django_security_event_url) ≡ some config.django_security_event_url
      → path_with_query js event_path ≡ some path
      → nonce ≢ ""
      → at / 1000 ≤ checked / 1000 + effective_skew skew
      → checked / 1000 ≤ at / 1000 + effective_skew skew
      → IsFresh at' nonce cache
      → Sends js laws fetch config at checked at' skew cache event
          (forward js fetch config at nonce event)
  forward-Sends at checked at' nonce path skew cache event set parsed named lo hi fresh =
      let (headers, made, accepted) =
        signed_accepted js laws at checked at' nonce "POST" event_path path
          (some (event_body event)) config.internal_hmac_secret skew cache parsed named lo hi
          fresh in
      let made_up = forward_made at nonce _ event headers set made in
      record {
        post = record {
          url = config.django_security_event_url;
          headers = headers;
          body = event_body event;
        };
        posted = ap (λ e. e.posted) made_up;
        to_django = refl;
        describes = event_body-Describes event;
        accepted = accepted;
        logged = ap (λ e. e.warning) made_up;
      }
