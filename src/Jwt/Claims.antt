-- ===== src/Jwt/Claims.antt =====
-- What the payload of src/jwt/authorization-jwt.service.ts says.
use kisauth.Base.{ℕ, ◌+◌, String, Option, none, some, ◌≡◌, refl, str_eq, arith, false, true, ◌∙◌}
use kisauth.Base.Int.{pos}
use kisauth.Base.Number.{whole}
use kisauth.Json.{lookup, string_field, number_field, as_string, Fields, end}
use kisauth.Signing.{given}
use kisauth.Jwt.{AuthorizationClaims, issuer_base, optional_field, token_payload, or_null}
use kisauth.Records.{◌>>=◌}

lookup_past :
    (k name : String) (v : Option String) (rest : Fields)
    → str_eq name k ≡ false
    → lookup k (optional_field name v rest) ≡ lookup k rest
lookup_past k name none rest h = refl
lookup_past k name (some s) rest h = ground arith

lookup_last :
    (k : String) (v : Option String)
    → str_eq k k ≡ true
    → (lookup k (optional_field k v end) >>= as_string) ≡ given v
lookup_last k none h = refl
lookup_last k (some s) h = ground arith

lookup_past_both :
    (k : String) (claims : AuthorizationClaims) (rest : Fields)
    → str_eq "provider" k ≡ false
    → str_eq "partner_slug" k ≡ false
    → lookup k (
        optional_field "provider" claims.provider
          (optional_field "partner_slug" claims.partner_slug rest))
      ≡ lookup k rest
lookup_past_both k claims rest p q =
    lookup_past k "provider" claims.provider _ p
    ∙ lookup_past k "partner_slug" claims.partner_slug rest q

as_string-or_null : (v : Option String) → as_string (or_null v) ≡ v
as_string-or_null none = refl
as_string-or_null (some s) = refl

-- Every token names the issuer, the client, the purpose and the identity that it was signed for,
-- ends the given number of seconds after it begins, and has a subject exactly if the claims have
-- one that is not empty.
pub token_payload_lem :
    (now expires : ℕ) (jti : String) (claims : AuthorizationClaims)
    → let payload = token_payload now expires jti claims in
      (string_field "iss" payload ≡ some issuer_base)
      × (string_field "aud" payload ≡ some claims.aud)
      × (string_field "purpose" payload ≡ some claims.purpose)
      × (string_field "auth_identity_id" payload ≡ claims.auth_identity_id)
      × (string_field "sub" payload ≡ given claims.sub)
      × (number_field "iat" payload ≡ some (whole (pos now)))
      × (number_field "exp" payload ≡ some (whole (pos (now + expires))))
unfolding token_payload
token_payload_lem now expires jti claims = (
  rw (lookup_past_both "iss" claims _ refl refl),
  rw (lookup_past_both "aud" claims _ refl refl),
  refl,
  as_string-or_null claims.auth_identity_id,
  rw (lookup_past_both "sub" claims _ refl refl) (lookup_last "sub" claims.sub refl),
  rw (lookup_past_both "iat" claims _ refl refl),
  rw (lookup_past_both "exp" claims _ refl refl),
)
