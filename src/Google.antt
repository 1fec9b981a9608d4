-- ===== src/Google.antt =====
-- What a provider's answer is worth: src/oauth/id-token-verifier.ts, google-id-token.service.ts and
-- google-token-exchange.service.ts.
pub mod IdToken
use kisauth.Base.{
  Bool, true, false, String, Option, none, some, List, [], ◌∷◌, str_eq, not, if◌then◌else◌,
}
use kisauth.Json.{Json, bool, member, string_field}
use kisauth.Signing.{given}
use kisauth.Service.{Config}
use kisauth.Oauth.Outcome.{VerifiedProviderIdentity}

-- The response of fetch: `response.ok`, and what `response.json()` gives, `none` where it throws.
pub record Response : Type 0 where
  pub is_ok : Bool
  pub body : Option Json

abbrev pub is_true : Option Json → Bool
is_true (some (bool b)) = b
is_true _ = false

abbrev pub google_issuers : List String
google_issuers = "https://accounts.google.com" ∷ "accounts.google.com" ∷ []

-- The claims behind jwtVerify: nonce, subject and e-mail. `none` is IdTokenVerificationError.
unfoldable pub read_claims : (expected_nonce : String) → Json → Option VerifiedProviderIdentity
read_claims expected_nonce payload = elim (string_field "nonce" payload) [
  | none ↦ none
  | some nonce ↦
      if not (str_eq nonce expected_nonce)
      then none
      else elim (given (string_field "sub" payload)) [
        | none ↦ none
        | some sub ↦ some (record {
          sub = sub;
          email = string_field "email" payload;
          email_verified = is_true (member "email_verified" payload);
        })
      ]
]

-- `jwt_verify` is jwtVerify of jose with RS256 and the provider's keys: `none` where it throws.
module _
    (jwt_verify : (token : String)
      → (issuers : List String) → (audience : String) → Option Json) where
  unfoldable pub verify_oidc_id_token :
      (id_token : String)
      → (issuers : List String) → (audience expected_nonce : String)
      → Option VerifiedProviderIdentity
  verify_oidc_id_token id_token issuers audience expected_nonce =
      elim (jwt_verify id_token issuers audience) [
        | none ↦ none
        | some payload ↦ read_claims expected_nonce payload
      ]

  -- GoogleIdTokenService.verify; `none` is GoogleIdTokenVerificationError.
  unfoldable pub verify_google :
      Config → (id_token expected_nonce : String) → Option VerifiedProviderIdentity
  verify_google config id_token expected_nonce =
      verify_oidc_id_token id_token google_issuers config.google_client_id expected_nonce

-- The form that is posted to Google.
abbrev pub token_form : Config → (code code_verifier : String) → List (String × String)
token_form config code code_verifier =
    ("code", code)
    ∷ ("client_id", config.google_client_id)
    ∷ ("client_secret", config.google_client_secret)
    ∷ ("redirect_uri", config.google_redirect_uri)
    ∷ ("grant_type", "authorization_code")
    ∷ ("code_verifier", code_verifier)
    ∷ []

abbrev pub token_in : Response → Option String
token_in response = elim response.body [
  | none ↦ none
  | some body ↦ if response.is_ok then given (string_field "id_token" body) else none
]

-- exchangeCodeForIdToken; `post` is fetch, `none` where it throws. An `id_token` is a text, as its
-- type says. `none` is any error.
unfoldable pub exchange_code_for_id_token :
    (post : (url : String) → (form : List (String × String)) → Option Response)
    → Config
    → (code code_verifier : String) → Option String
exchange_code_for_id_token post config code code_verifier =
    elim (post "https://oauth2.googleapis.com/token" (token_form config code code_verifier)) [
      | none ↦ none
      | some response ↦ token_in response
    ]
