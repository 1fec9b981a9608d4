-- ===== src/Jwt/Verified.antt =====
-- sign and verifyAuthorizationJwt of src/jwt/authorization-jwt.service.ts.
use kisauth.Base.{ℕ, ◌+◌, ◌/◌, String, Option, none, some, ◌≡◌, str_eq, ◌&&◌, ltb, if◌then◌else◌}
use kisauth.Base.Int.{pos}
use kisauth.Base.Number.{whole}
use kisauth.Json.{Json, string_field, number_field}
use kisauth.Service.{Config}
use kisauth.Jwt.{AuthorizationClaims, issuer_base, normalize_pem, token_payload, sign}
use kisauth.Jwt.Keys.{verify_authorization_jwt}
use kisauth.Jwt.Claims.{token_payload_lem}

module _ (rs256 : (pem kid : String) → Json → Option String)
    (jwt_verify : (at : ℕ) → (pem issuer audience token : String) → Option Json) where
  -- What is relied on of jose, for a pair of keys and a payload: a token that was signed with the one
  -- key is verified with the other, and its payload given back, exactly if its issuer and its audience
  -- are those that are asked for and it is not over.
  pub record Vouches (private_pem public_pem : String) (payload : Json) : Type 0 where
    pub verify_signed :
        (at : ℕ) (kid token issuer audience i a : String) (e : ℕ)
        → rs256 private_pem kid payload ≡ some token
        → string_field "iss" payload ≡ some i
        → string_field "aud" payload ≡ some a
        → number_field "exp" payload ≡ some (whole (pos e))
        → jwt_verify at public_pem issuer audience token ≡ (
            if str_eq i issuer && (str_eq a audience && ltb (at / 1000) e)
            then some payload
            else none)

  -- A token that the service signed is verified with the matching public key exactly if it was signed
  -- for the client that is expected and its lifetime, counted in whole seconds from its signing, is
  -- not over; the verifier then has the very payload that was signed. The private and the public key
  -- must match, as jose vouches for.
  pub verify-sign :
      (now_ms at expires : ℕ) (jti public_pem audience token : String) (config : Config)
      (claims : AuthorizationClaims)
      → Vouches
          (normalize_pem config.jwt_private_key_pem)
          (normalize_pem public_pem)
          (token_payload (now_ms / 1000) expires jti claims)
      → sign rs256 now_ms jti config claims expires ≡ some token
      → verify_authorization_jwt jwt_verify at token public_pem audience ≡ (
          if str_eq claims.aud audience && ltb (at / 1000) (now_ms / 1000 + expires)
          then some (token_payload (now_ms / 1000) expires jti claims)
          else none)
  unfolding sign verify_authorization_jwt
  verify-sign now_ms at expires jti public_pem audience token config claims jose h =
      let (iss, aud, _, _, _, _, exp) = token_payload_lem (now_ms / 1000) expires jti claims in
      jose.verify_signed at config.jwt_kid token issuer_base audience issuer_base claims.aud
        (now_ms / 1000 + expires) h iss aud exp
