-- ===== src/Env/Required.antt =====
-- When src/config/env.ts loads a configuration.
use kisauth.Base.{
  true, String, Option, none, some, List, All, ◌≡◌, ◌↔◌, refl, arith, ◌∙◌, Bool-cases, Option-cases,
  inl, inr,
}
use kisauth.Base.Number.{Number}
use kisauth.Env.{
  Loading, loaded, refused, missing, PreviousKey, KisAuthConfig, ◌>>=◌, is_set, if_set, required,
  parse_previous_keys, load_config, env_check,
}

bind_loaded :
    {A B : Type 0} (m : Loading A) (next : A → Loading B) (b : B)
    → (m >>= next) ≡ loaded b
    → (a : A) × (m ≡ loaded a) × (next a ≡ loaded b)
bind_loaded (loaded a) next b h = (a, refl, h)
bind_loaded (refused e) next b h = ground arith

loaded_bind :
    {A B : Type 0} (m : Loading A) (next : A → Loading B) (a : A)
    → m ≡ loaded a
    → (m >>= next) ≡ next a
loaded_bind m next a h = rw h

if_set_inv : (o : Option String) (v : String) → if_set o ≡ some v → is_set o ≡ true
if_set_inv none v h = ground arith
if_set_inv (some s) v h = elim (Bool-cases (is_set (some s))) [
  | inl is ↦ is
  | inr other ↦ let bad : none ≡ some v = rw other at h in cc
]

if_set-some : (o : Option String) → is_set o ≡ true → (v : String) × (if_set o ≡ some v)
if_set-some none h = ground arith
if_set-some (some s) h = (s, rw h)

module _ (env : String → Option String) where
  required_inv : (name value : String) → required env name ≡ loaded value → is_set (env name) ≡ true
  unfolding required
  required_inv name value h = elim (Option-cases (if_set (env name))) [
    | inl unset ↦ let bad : refused (missing name) ≡ loaded value = rw (unset, required) at h in cc
    | inr (v, e) ↦ if_set_inv (env name) v e
  ]

  required-IsSet :
      (name : String)
      → is_set (env name) ≡ true
      → (value : String) × (required env name ≡ loaded value)
  unfolding required
  required-IsSet name h = let (v, e) = if_set-some (env name) h in (v, rw (e, required))

  -- Every line of printEnvCheck says SET.
  abbrev pub AllSet : Type 0
  AllSet = All (λ line. line.1 ≡ true) (env_check env)

  module _ (decode : String → String) (to_number : String → Number) where
    load_config_sound :
        (config : KisAuthConfig)
        → load_config decode to_number env ≡ loaded config
        → AllSet
          × ((keys : List PreviousKey) × (parse_previous_keys decode
                  (env "KISAUTH_JWT_PREVIOUS_KEYS")
                ≡ loaded keys))
    unfolding load_config env_check
    load_config_sound config h =
        let (v₁, e₁, h₁) = bind_loaded _ _ config h in
        let (v₂, e₂, h₂) = bind_loaded _ _ config h₁ in
        let (v₃, e₃, h₃) = bind_loaded _ _ config h₂ in
        let (v₄, e₄, h₄) = bind_loaded _ _ config h₃ in
        let (v₅, e₅, h₅) = bind_loaded _ _ config h₄ in
        let (v₆, e₆, h₆) = bind_loaded _ _ config h₅ in
        let (v₇, e₇, h₇) = bind_loaded _ _ config h₆ in
        let (v₈, e₈, h₈) = bind_loaded _ _ config h₇ in
        let (v₉, e₉, h₉) = bind_loaded _ _ config h₈ in
        let (keys, read, h₁₀) = bind_loaded _ _ config h₉ in
        let (v₁₁, e₁₁, h₁₁) = bind_loaded _ _ config h₁₀ in
        (
          (
            required_inv _ v₁ e₁,
            (
              required_inv _ v₂ e₂,
              (
                required_inv _ v₃ e₃,
                (
                  required_inv _ v₄ e₄,
                  (
                    required_inv _ v₅ e₅,
                    (
                      required_inv _ v₆ e₆,
                      (
                        required_inv _ v₇ e₇,
                        (
                          required_inv _ v₈ e₈,
                          (required_inv _ v₉ e₉, (required_inv _ v₁₁ e₁₁, tt)),
                        ),
                      ),
                    ),
                  ),
                ),
              ),
            ),
          ),
          (keys, read),
        )

    load_config_complete :
        (keys : List PreviousKey)
        → AllSet
        → parse_previous_keys decode (env "KISAUTH_JWT_PREVIOUS_KEYS") ≡ loaded keys
        → (config : KisAuthConfig) × (load_config decode to_number env ≡ loaded config)
    unfolding load_config env_check
    load_config_complete keys (s₁, (s₂, (s₃, (s₄, (s₅, (s₆, (s₇, (s₈, (s₉, (s₁₁, t)))))))))) read =
        let (v₁, e₁) = required-IsSet _ s₁ in
        let (v₂, e₂) = required-IsSet _ s₂ in
        let (v₃, e₃) = required-IsSet _ s₃ in
        let (v₄, e₄) = required-IsSet _ s₄ in
        let (v₅, e₅) = required-IsSet _ s₅ in
        let (v₆, e₆) = required-IsSet _ s₆ in
        let (v₇, e₇) = required-IsSet _ s₇ in
        let (v₈, e₈) = required-IsSet _ s₈ in
        let (v₉, e₉) = required-IsSet _ s₉ in
        let (v₁₁, e₁₁) = required-IsSet _ s₁₁ in
        (
          _,
          loaded_bind _ _ v₁ e₁
              ∙ loaded_bind _ _ v₂ e₂
              ∙ loaded_bind _ _ v₃ e₃
              ∙ loaded_bind _ _ v₄ e₄
              ∙ loaded_bind _ _ v₅ e₅
              ∙ loaded_bind _ _ v₆ e₆
              ∙ loaded_bind _ _ v₇ e₇
              ∙ loaded_bind _ _ v₈ e₈
              ∙ loaded_bind _ _ v₉ e₉
              ∙ loaded_bind _ _ keys read
              ∙ loaded_bind _ _ v₁₁ e₁₁,
        )

    -- loadConfig succeeds exactly if printEnvCheck prints SET behind every name and the previous keys
    -- parse.
    pub config_loads_iff :
        ((config : KisAuthConfig) × (load_config decode to_number env ≡ loaded config)) ↔ (
          AllSet
          × ((keys : List PreviousKey) × (parse_previous_keys decode
                  (env "KISAUTH_JWT_PREVIOUS_KEYS")
                ≡ loaded keys)))
    config_loads_iff = (
      λ p. load_config_sound p.0 p.1,
      λ p. let (all, (keys, read)) = p in load_config_complete keys all read,
    )
