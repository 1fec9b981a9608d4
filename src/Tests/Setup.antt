-- ===== src/Tests/Setup.antt =====
-- Reading an environment, and a run of the migrations.
use kisauth.Base.{
  ℕ, String, Option, some, none, List, [], ◌∷◌, ◌≡◌, ◌↔◌, true, str_eq, if◌then◌else◌, suc, Bool,
}
use kisauth.Env.{KisAuthConfig, PreviousKey, loaded, parse_previous_keys, load_config}
use kisauth.Env.Required.{AllSet, config_loads_iff}
use kisauth.Migrate.{Database}
use kisauth.Tests.Runtime.{read_number}

abbrev as_is : String → String
as_is s = s

abbrev env : String → Option String
env name = if str_eq name "KISAUTH_JWT_PREVIOUS_KEYS" then none else some "x"

config_loads_iff_example :
    ((config : KisAuthConfig) × (load_config as_is read_number env ≡ loaded config)) ↔ (
      AllSet env
      × ((keys : List PreviousKey) × (parse_previous_keys as_is (env "KISAUTH_JWT_PREVIOUS_KEYS")
            ≡ loaded keys)))
config_loads_iff_example = config_loads_iff env as_is read_number

abbrev execute : (file : String) → ℕ → Option ℕ
execute file n = some (suc n)

abbrev is_sql : String → Bool
is_sql name = true

abbrev fresh_db : Database ℕ
fresh_db = record { applied = "001" ∷ []; schema = 1 }

abbrev names : List String
names = "002" ∷ "001" ∷ []
