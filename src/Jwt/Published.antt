-- ===== src/Jwt/Published.antt =====
-- What the JWKS document of src/jwt/authorization-jwt.service.ts holds.
use kisauth.Base.{
  String, Option, none, some, List, [], ◌∷◌, ◌≡◌, refl, str_eq, inl, inr, arith, true, false,
  some_inj, Bool-cases, subst, sym, ◌∙◌, ap,
}
use text.Mathlib.TextEquality.{eq_iff}
use kisauth.Json.{as_string, Json, str, obj, Fields, field, end, lookup, member, string_field}
use kisauth.Records.{◌>>=◌}
use kisauth.Env.{PreviousKey}
use kisauth.Service.{Config}
use kisauth.Jwt.{normalize_pem}
use kisauth.Jwt.Keys.{set_field, public_key_to_jwk, previous_jwks, build_jwks}

-- A JWK for verifying RS256 signatures with a key, under the name of the key: whatever the exported
-- JWK says of name, algorithm and use is replaced, and everything else is kept.
module _ (export_jwk : (pem : String) → Option Fields) where
  pub record IsJwkOf (key : PreviousKey) (jwk : Json) : Type 0 where
    pub fields : Fields
    pub exported : export_jwk (normalize_pem key.public_key_pem) ≡ some fields
    pub named : string_field "kid" jwk ≡ some key.kid
    pub alg : string_field "alg" jwk ≡ some "RS256"
    pub usage : string_field "use" jwk ≡ some "sig"
    pub kept :
        (name : String)
        → str_eq "kid" name ≡ false
        → str_eq "alg" name ≡ false
        → str_eq "use" name ≡ false
        → member name jwk ≡ lookup name fields

  abbrev pub Publishes : List PreviousKey → List Json → Type 0
  Publishes [] [] = Unit
  Publishes (key ∷ keys) (jwk ∷ jwks) = IsJwkOf key jwk × Publishes keys jwks
  Publishes _ _ = ⊥

-- The current key and those that are kept alive by a rotation.
abbrev pub all_keys : Config → List PreviousKey
all_keys config =
    record { kid = config.jwt_kid; public_key_pem = config.jwt_public_key_pem }
    ∷ config.jwt_previous_keys

lookup-set_field :
    (k : String) (v : Json) (fields : Fields)
    → str_eq k k ≡ true
    → lookup k (set_field k v fields) ≡ some v
unfolding set_field
lookup-set_field k v end h = ground arith
lookup-set_field k v (field j u rest) h = ground (arith, lookup-set_field k v rest h)

lookup-set_field_other :
    (k j : String) (v : Json) (fields : Fields)
    → str_eq k j ≡ false
    → lookup j (set_field k v fields) ≡ lookup j fields
unfolding set_field
lookup-set_field_other k j v end h = ground arith
lookup-set_field_other k j v (field i u rest) h = elim (Bool-cases (str_eq i k)) [
  | inr other ↦ rw (other, lookup-set_field_other k j v rest h)
  | inl same ↦
      let differ : str_eq i j ≡ false =
        subst (λ x. str_eq x j ≡ false) (sym ((eq_iff i k).0 same)) h in
      rw (same, differ)
]

abbrev jwk_of : (kid : String) → Fields → Json
jwk_of kid fields =
    obj (
      set_field "use" (str "sig")
        (set_field "alg" (str "RS256") (set_field "kid" (str kid) fields)))

-- What a do block of options has come by.
bind-some :
    {A B : Type 0} (o : Option A) (next : A → Option B) (b : B)
    → (o >>= next) ≡ some b
    → (a : A) × (o ≡ some a) × (next a ≡ some b)
bind-some none next b h = ground arith
bind-some (some a) next b h = (a, refl, h)

module _ (export_jwk : (pem : String) → Option Fields) where
  jwk_of-IsJwkOf :
      (key : PreviousKey) (fields : Fields)
      → export_jwk (normalize_pem key.public_key_pem) ≡ some fields
      → IsJwkOf export_jwk key (jwk_of key.kid fields)
  jwk_of-IsJwkOf key fields exported = record {
    fields = fields;
    exported = exported;
    named =
        ap (λ v. v >>= as_string)
          (lookup-set_field_other "use" "kid" _ _ refl
            ∙ lookup-set_field_other "alg" "kid" _ _ refl
            ∙ lookup-set_field "kid" _ fields refl);
    alg =
        ap (λ v. v >>= as_string)
          (lookup-set_field_other "use" "alg" _ _ refl ∙ lookup-set_field "alg" _ _ refl);
    usage = ap (λ v. v >>= as_string) (lookup-set_field "use" _ _ refl);
    kept = λ name kid alg usage.
        lookup-set_field_other "use" name _ _ usage
        ∙ lookup-set_field_other "alg" name _ _ alg
        ∙ lookup-set_field_other "kid" name _ fields kid;
  }

  jwk-IsJwkOf :
      (key : PreviousKey) (jwk : Json)
      → public_key_to_jwk export_jwk key.public_key_pem key.kid ≡ some jwk
      → IsJwkOf export_jwk key jwk
  unfolding public_key_to_jwk
  jwk-IsJwkOf key jwk h =
      let (fields, exported, made) =
        bind-some (export_jwk (normalize_pem key.public_key_pem)) (λ x. some (jwk_of key.kid x)) jwk
          h in
      subst (IsJwkOf export_jwk key) (some_inj made) (jwk_of-IsJwkOf key fields exported)

  previous-Publishes :
      (prevs : List PreviousKey) (jwks : List Json)
      → previous_jwks export_jwk prevs ≡ some jwks
      → Publishes export_jwk prevs jwks
  unfolding previous_jwks
  previous-Publishes [] jwks h = subst (Publishes export_jwk []) (some_inj h) tt
  previous-Publishes (prev ∷ rest) jwks h =
      let (jwk, made, h₁) = bind-some _ _ jwks h in
      let (later, h₂, h₃) = bind-some _ _ jwks h₁ in
      let all : Publishes export_jwk (prev ∷ rest) (jwk ∷ later) =
        (jwk-IsJwkOf prev jwk made, previous-Publishes rest later h₂) in
      subst (Publishes export_jwk (prev ∷ rest)) (some_inj h₃) all

  -- The JWKS document has the keys of the configuration in order, the current one first and then
  -- every one that is kept alive by a rotation: each is the JWK of its PEM, named by its kid, for
  -- RS256 and for verifying signatures, whatever the exported JWK itself says of these.
  pub build_jwks-Publishes :
      (config : Config) (jwks : List Json)
      → build_jwks export_jwk config ≡ some jwks
      → Publishes export_jwk (all_keys config) jwks
  unfolding build_jwks
  build_jwks-Publishes config jwks h =
      let (jwk, made, h₁) = bind-some _ _ jwks h in
      let (previous, h₂, h₃) = bind-some _ _ jwks h₁ in
      let current =
        jwk-IsJwkOf (record { kid = config.jwt_kid; public_key_pem = config.jwt_public_key_pem })
          jwk made in
      let all : Publishes export_jwk (all_keys config) (jwk ∷ previous) =
        (current, previous-Publishes config.jwt_previous_keys previous h₂) in
      subst (Publishes export_jwk (all_keys config)) (some_inj h₃) all
