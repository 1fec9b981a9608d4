-- ===== src/Oauth/Enterprise/Exchange.antt =====
-- src/oauth/oidc-token-exchange.service.ts and oidc-id-token.service.ts: a partner's provider is
-- asked for an id token in answer to a code, and the id token is verified.
use kisauth.Base.{String, Option, none, some, List, [], ◌∷◌}
use kisauth.Js.{Js}
use kisauth.Partner.{OidcPartnerConfig, DiscoveryDocument}
use kisauth.Service.{Config}
use kisauth.Google.{token_in, verify_oidc_id_token}
use kisauth.Oauth.Outcome.{VerifiedProviderIdentity}
use kisauth.Oauth.Tenant.{composite_oidc_subject}
use kisauth.Oauth.Enterprise.{Outside, enterprise_redirect_uri}

-- The form that is posted to the token endpoint.
abbrev pub partner_form :
    OidcPartnerConfig → (redirect_uri code code_verifier : String) → List (String × String)
partner_form partner redirect_uri code code_verifier =
    ("code", code)
    ∷ ("client_id", partner.client_id)
    ∷ ("client_secret", partner.client_secret)
    ∷ ("redirect_uri", redirect_uri)
    ∷ ("grant_type", "authorization_code")
    ∷ ("code_verifier", code_verifier)
    ∷ []

-- What the `try` of the callback comes to: an identity, or an error that is or is not an
-- OidcIdTokenVerificationError.
pub data Vouching : Type 0 where
  vouched : VerifiedProviderIdentity → Vouching
  not_verified : Vouching
  not_exchanged : Vouching

abbrev pub or_not_verified : Option VerifiedProviderIdentity → Vouching
or_not_verified none = not_verified
or_not_verified (some verified) = vouched verified

module _ (js : Js) (out : Outside js) (config : Config) (partner_slug : String)
    (partner : OidcPartnerConfig) (doc : DiscoveryDocument) where
  -- OidcTokenExchangeService.exchangeCodeForIdToken with the arguments of the callback; any error is
  -- `none`.
  unfoldable pub exchange_partner_code : (code code_verifier : String) → Option String
  exchange_partner_code code code_verifier = elim (enterprise_redirect_uri js config partner_slug) [
    | none ↦ none
    | some redirect_uri ↦
        elim (out.post doc.token_endpoint (partner_form partner redirect_uri code code_verifier)) [
          | none ↦ none
          | some response ↦ token_in response
        ]
  ]

  -- OidcIdTokenService.verify: a URL of the keys that does not parse throws a TypeError. The cached
  -- resolver of keys is one for the same URL.
  unfoldable pub verify_partner : (id_token expected_nonce : String) → Vouching
  verify_partner id_token expected_nonce = elim (js.parse_url doc.jwks_uri) [
    | none ↦ not_exchanged
    | some keys ↦ or_not_verified (
        verify_oidc_id_token (out.jwt_verify keys) id_token (partner.issuer ∷ []) partner.client_id
          expected_nonce)
  ]

  unfoldable pub ask_partner : (code code_verifier expected_nonce : String) → Vouching
  ask_partner code code_verifier expected_nonce = elim (exchange_partner_code code code_verifier) [
    | none ↦ not_exchanged
    | some id_token ↦ verify_partner id_token expected_nonce
  ]

-- The identity under the key that tells the tenants apart.
abbrev pub tenant_identity : String → VerifiedProviderIdentity → VerifiedProviderIdentity
tenant_identity partner_slug verified = record verified {
  sub = composite_oidc_subject partner_slug verified.sub;
}
