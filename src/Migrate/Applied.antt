-- ===== src/Migrate/Applied.antt =====
-- What a run of src/db/migrate.ts leaves.
use kisauth.Base.{true, String, Option, List, ◌≡◌, All}
use kisauth.Migrate.{Database, is_applied}
use kisauth.Js.{Js}

module _ {S : Type 0} (execute : (file : String) → S → Option S) where
  abbrev pub AllApplied : List String → Database S → Type 0
  AllApplied files db = All (λ file. is_applied file db ≡ true) files
