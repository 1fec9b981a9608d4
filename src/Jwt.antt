-- ===== src/Jwt.antt =====
-- src/jwt/authorization-jwt.service.ts: the claims of the token that an exchange returns.
-- `rs256` is importPKCS8 and SignJWT of jose: a PEM, a key id and a payload to a token, `none` where
-- it throws.
pub mod Claims
pub mod Keys
pub mod Published
pub mod Verified
use Prim.Native.Char.{code}
use kisauth.Base.{ℕ, ◌+◌, ◌/◌, ◌==◌, ◌&&◌, Bool, String, Option, none, some, str_eq, if◌then◌else◌}
use kisauth.Base.Int.{pos}
use kisauth.Base.Number.{whole}
use kisauth.Json.{Json, null, str, num, bool, obj, Fields, field, end}
use kisauth.Records.{Purpose}
use kisauth.Service.{Config}

abbrev pub issuer_base : String
issuer_base = "kisauth.kingdomimpactventures.org"

pub record AuthorizationClaims : Type 0 where
  pub sub : Option String
  pub aud : String
  pub purpose : Purpose
  pub auth_identity_id : Option String
  pub provider_subject : Option String
  pub provider_email : Option String
  pub provider_email_verified : Bool
  pub provider : Option String
  pub partner_slug : Option String

-- `pem.replace(/\\n/g, '\n')`, which changes nothing where there is no such pair.
unfoldable pub normalize_pem : String → String
normalize_pem String.[] = ""
normalize_pem (String.◌∷◌ c String.[]) = String.◌∷◌ c ""
normalize_pem (String.◌∷◌ c (String.◌∷◌ d rest)) =
    let after = normalize_pem rest in
    let kept = normalize_pem (String.◌∷◌ d rest) in
    if code c == b'\\' && code d == b'n' then String.◌∷◌ "\n" after else String.◌∷◌ c kept

-- `value ?? null`
abbrev pub or_null : Option String → Json
or_null none = null
or_null (some s) = str s

-- `...(value ? { name: value } : {})`
abbrev pub optional_field : String → Option String → Fields → Fields
optional_field name none rest = rest
optional_field name (some s) rest = if str_eq s "" then rest else field name (str s) rest

-- The payload with the registered claims that the builder sets; `jti` is a random UUID.
unfoldable pub token_payload :
    (now expires_in_seconds : ℕ) → (jti : String) → AuthorizationClaims → Json
token_payload now expires_in_seconds jti claims = obj (
    field "purpose" (str claims.purpose) (
      field "auth_identity_id" (or_null claims.auth_identity_id) (
        field "provider_subject" (or_null claims.provider_subject) (
          field "provider_email" (or_null claims.provider_email) (
            field "provider_email_verified" (bool claims.provider_email_verified) (
              optional_field "provider" claims.provider (
                optional_field "partner_slug" claims.partner_slug (
                  field "iss" (str issuer_base) (
                    field "aud" (str claims.aud) (
                      field "iat" (num (whole (pos now))) (
                        field "exp" (num (whole (pos (now + expires_in_seconds))))
                          (field "jti" (str jti) (optional_field "sub" claims.sub end)))))))))))))

module _ (rs256 : (pem kid : String) → Json → Option String) where
  unfoldable pub sign :
      (now_ms : ℕ)
      → (jti : String) → Config
      → AuthorizationClaims
      → (expires_in_seconds : ℕ) → Option String
  sign now_ms jti config claims expires_in_seconds =
      rs256 (normalize_pem config.jwt_private_key_pem) config.jwt_kid
        (token_payload (now_ms / 1000) expires_in_seconds jti claims)
