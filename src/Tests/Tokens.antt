-- ===== src/Tests/Tokens.antt =====
-- Tokens and their keys, and an event that is forwarded.
use kisauth.Base.{
  ℕ, ◌+◌, ◌/◌, String, Option, some, none, [], ◌∷◌, ◌≡◌, refl, arith, str_eq, some_inj, ltb, ◌&&◌,
  if◌then◌else◌, false,
}
use kisauth.Json.{Json, str, Fields, field, end}
use kisauth.Base.Int.{pos}
use kisauth.Base.Number.{whole}
use kisauth.Jwt.{issuer_base, AuthorizationClaims, normalize_pem, token_payload, sign, issuer_base}
use kisauth.Jwt.Keys.{
  set_field, public_key_to_jwk, previous_jwks, build_jwks, verify_authorization_jwt,
}
use kisauth.Jwt.Published.{Publishes, all_keys, build_jwks-Publishes}
use kisauth.Jwt.Verified.{Vouches, verify-sign}
use kisauth.Events.{oauth_cancelled, failure, SecurityEvent}
use kisauth.Events.Forward.{Post, Attempt, answered, forward}
use kisauth.Events.Sent.{Sends, forward-Sends}
use kisauth.Signing.Payload.{path_with_query}
use kisauth.Tests.Runtime.{js, js-Prints}
use kisauth.Tests.Signing.{str_ne}
use kisauth.Tests.Exchange.{rs256, config}

abbrev export_jwk : String → Option Fields
export_jwk pem = some (field "kty" (str "RSA") (field "n" (str pem) (field "use" (str "enc") end)))

abbrev jwk_of : (pem kid : String) → Json
jwk_of pem kid = Json.obj (
    field "kty" (str "RSA") (
      field "n" (str pem)
        (field "use" (str "sig") (field "kid" (str kid) (field "alg" (str "RS256") end)))))

jwks_built : build_jwks export_jwk config ≡ some (jwk_of "pub" "k1" ∷ jwk_of "old" "k0" ∷ [])
unfolding build_jwks previous_jwks public_key_to_jwk set_field normalize_pem
jwks_built = refl

build_jwks-Publishes_example :
    Publishes export_jwk (all_keys config) (jwk_of "pub" "k1" ∷ jwk_of "old" "k0" ∷ [])
build_jwks-Publishes_example = build_jwks-Publishes export_jwk config _ jwks_built

abbrev claims : AuthorizationClaims
claims = record {
  sub = some "u1";
  aud = "c1";
  purpose = "recovery";
  auth_identity_id = some "i1";
  provider_subject = none;
  provider_email = none;
  provider_email_verified = false;
  provider = none;
  partner_slug = none;
}

abbrev payload : Json
payload = token_payload (5000 / 1000) 60 "j" claims

abbrev jwt_verify : (at : ℕ) → (pem issuer audience token : String) → Option Json
jwt_verify at pem issuer audience token =
    if str_eq issuer_base issuer && (str_eq "c1" audience && ltb (at / 1000) 65)
    then some payload
    else none

whole_inj : {m n : ℕ} → some (whole (pos m)) ≡ some (whole (pos n)) → m ≡ n
whole_inj e = cc

vouches : Vouches rs256 jwt_verify (normalize_pem "pem") (normalize_pem "pub") payload
unfolding token_payload
vouches = record {
  verify_signed = λ at kid token issuer audience i a e h iss aud exp.
      let from_iss : issuer_base ≡ i = some_inj iss in
      let from_aud : "c1" ≡ a = some_inj aud in
      let from_exp : 65 ≡ e = whole_inj exp in rw (from_iss, from_aud, from_exp) refl;
}

token_signed : sign rs256 5000 "j" config claims 60 ≡ some "token"
unfolding sign
token_signed = refl

verify-sign_example : verify_authorization_jwt jwt_verify 9000 "token" "pub" "c1" ≡ (
    if str_eq claims.aud "c1" && ltb (9000 / 1000) (5000 / 1000 + 60)
    then some (token_payload (5000 / 1000) 60 "j" claims)
    else none)
verify-sign_example =
    verify-sign rs256 jwt_verify 5000 9000 60 "j" "pub" "c1" "token" config claims vouches
      token_signed

abbrev event : SecurityEvent
event = record {
  event_type = oauth_cancelled;
  outcome = failure;
  kis_user_id = none;
  client_id = some "kis-django";
  reason = some "access_denied";
  ip = some "::1";
  metadata = ("provider", some "google") ∷ [];
}

abbrev django : (at : ℕ) → Post → Attempt
django at post = answered (record { status = 204; body = none })

forward-Sends_example :
    Sends js js-Prints django config 2000 9000 9001 30 [] event
      (forward js django config 2000 "abc" event)
unfolding path_with_query
forward-Sends_example =
    forward-Sends js js-Prints django config 2000 9000 9001 "abc" "/api/v1/kis-auth/security-event/"
      30 [] event refl refl (str_ne "abc" "" refl) (omega arith) (omega arith) tt
