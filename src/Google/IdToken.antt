-- ===== src/Google/IdToken.antt =====
-- When src/oauth/id-token-verifier.ts accepts an id token.
use kisauth.Base.{
  String, Option, some, List, ◌≡◌, ◌↔◌, arith, Option-cases, Bool-cases, inl, inr, str_eq, eq_iff,
  eq_refl, ap, sym, ◌∙◌, some_inj,
}
use kisauth.Json.{Json, member, string_field}
use kisauth.Signing.{given}
use kisauth.Oauth.Outcome.{VerifiedProviderIdentity}
use kisauth.Google.{is_true, read_claims, verify_oidc_id_token}

module _
    (jwt_verify : (token : String) → (issuers : List String) → (audience : String) → Option Json)
    (id_token : String) (issuers : List String) (audience expected_nonce : String) where
  -- jose vouches for a payload that has the nonce of the session and a subject that is not empty;
  -- the identity is what the payload says.
  pub record Vouched (i : VerifiedProviderIdentity) : Type 0 where
    pub payload : Json
    pub signed : jwt_verify id_token issuers audience ≡ some payload
    pub same_nonce : string_field "nonce" payload ≡ some expected_nonce
    pub subject : given (string_field "sub" payload) ≡ some i.sub
    pub email : i.email ≡ string_field "email" payload
    pub email_verified : i.email_verified ≡ is_true (member "email_verified" payload)

  read_claims_sound :
      (payload : Json) (i : VerifiedProviderIdentity)
      → jwt_verify id_token issuers audience ≡ some payload
      → read_claims expected_nonce payload ≡ some i
      → Vouched i
  unfolding read_claims
  read_claims_sound payload i signed h = elim (Option-cases (string_field "nonce" payload)) [
    | inl missing ↦ ground arith
    | inr (nonce, has_nonce) ↦ elim (Bool-cases (str_eq nonce expected_nonce)) [
      | inr differ ↦ ground arith
      | inl same ↦ elim (Option-cases (given (string_field "sub" payload))) [
        | inl missing ↦ ground arith
        | inr (sub, has_sub) ↦
            let e = some_inj (rw (has_nonce, same, has_sub, read_claims) at h) in
            record {
              payload = payload;
              signed = signed;
              same_nonce = has_nonce ∙ ap some ((eq_iff nonce expected_nonce).0 same);
              subject = has_sub ∙ ap (λ x. some x.sub) e;
              email = sym (ap (λ x. x.email) e);
              email_verified = sym (ap (λ x. x.email_verified) e);
            }
      ]
    ]
  ]

  -- An id token is accepted, for an identity, exactly if jose vouches for a payload with the expected
  -- nonce and a subject that is not empty, and the identity has that subject and the e-mail of the
  -- payload, verified only if the payload says `true`.
  pub id_token_accepted_iff :
      (i : VerifiedProviderIdentity)
      → (verify_oidc_id_token jwt_verify id_token issuers audience expected_nonce ≡ some i)
        ↔ Vouched i
  unfolding verify_oidc_id_token read_claims
  id_token_accepted_iff i = (
    λ h. elim (Option-cases (jwt_verify id_token issuers audience)) [
      | inl failed ↦ ground arith
      | inr (payload, signed) ↦
          read_claims_sound payload i signed (rw (signed, verify_oidc_id_token) at h)
    ],
    λ v. rw (
      v.signed,
      v.same_nonce,
      eq_refl expected_nonce,
      v.subject,
      sym v.email,
      sym v.email_verified,
      verify_oidc_id_token,
      read_claims,
    ),
  )
