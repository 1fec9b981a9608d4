-- ===== src/Jwt/Keys.antt =====
-- The published keys: publicKeyToJwk of src/jwt/keys.ts, buildJwks and verifyAuthorizationJwt of
-- src/jwt/authorization-jwt.service.ts. A JWKS document is the list of its keys.
use kisauth.Base.{ℕ, String, Option, some, List, [], ◌∷◌, str_eq, if◌then◌else◌}
use kisauth.Json.{Json, str, obj, Fields, field, end}
use kisauth.Records.{◌>>=◌}
use kisauth.Env.{PreviousKey}
use kisauth.Service.{Config}
use kisauth.Jwt.{normalize_pem, issuer_base}

-- A property of an object literal, behind a spread that may have it.
unfoldable pub set_field : String → Json → Fields → Fields
set_field k v end = field k v end
set_field k v (field j u rest) =
    let later = set_field k v rest in if str_eq j k then field j v rest else field j u later

-- `export_jwk` is createPublicKey and exportJWK: the fields of the JWK, `none` where one throws.
module _ (export_jwk : (pem : String) → Option Fields) where
  unfoldable pub public_key_to_jwk : (public_key_pem kid : String) → Option Json
  public_key_to_jwk public_key_pem kid = do
    jwk ← export_jwk (normalize_pem public_key_pem)
    some (
        obj (
          set_field "use" (str "sig")
            (set_field "alg" (str "RS256") (set_field "kid" (str kid) jwk))))

  -- The loop over the keys of the rotation.
  unfoldable pub previous_jwks : List PreviousKey → Option (List Json)
  previous_jwks [] = some []
  previous_jwks (prev ∷ rest) = do
    jwk ← public_key_to_jwk prev.public_key_pem prev.kid
    jwks ← previous_jwks rest
    some (jwk ∷ jwks)

  -- buildJwks, which jwks.controller.ts answers with; `none` is an error, answered with 500.
  unfoldable pub build_jwks : Config → Option (List Json)
  build_jwks config = do
    current ← public_key_to_jwk config.jwt_public_key_pem config.jwt_kid
    previous ← previous_jwks config.jwt_previous_keys
    some (current ∷ previous)

-- `jwt_verify` is importSPKI and jwtVerify of jose with RS256 alone, at a time; `none` where one
-- throws.
unfoldable pub verify_authorization_jwt :
    (jwt_verify : (at : ℕ) → (pem issuer audience token : String) → Option Json)
    → (at : ℕ) → (token public_key_pem expected_audience : String) → Option Json
verify_authorization_jwt jwt_verify at token public_key_pem expected_audience =
    jwt_verify at (normalize_pem public_key_pem) issuer_base expected_audience token
