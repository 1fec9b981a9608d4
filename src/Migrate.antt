-- ===== src/Migrate.antt =====
-- src/db/migrate.ts: each file of migrations is applied once, in the order of their names.
pub mod Applied
use kisauth.Base.{
  Bool, true, false, String, Option, none, some, List, [], ◌∷◌, ◌++◌, filter, any, str_eq,
  if◌then◌else◌,
}
use kisauth.Js.{Js}

-- The table schema_migrations, oldest row first, and the rest of the database.
pub record Database (S : Type 0) : Type 0 where
  pub applied : List String
  pub schema : S

-- `complete` is false where an error was thrown: the process then exits with 1.
pub record Migrated (S : Type 0) : Type 0 where
  pub complete : Bool
  pub db : Database S

-- `.sort()` on texts.
unfoldable pub insert_name : Js → String → List String → List String
insert_name js name [] = name ∷ []
insert_name js name (n ∷ names) =
    let later = insert_name js name names in
    if js.may_precede name n then name ∷ n ∷ names else n ∷ later

unfoldable pub sort_names : Js → List String → List String
unfolding insert_name
sort_names js [] = []
sort_names js (name ∷ names) = insert_name js name (sort_names js names)

-- `SELECT 1 FROM schema_migrations WHERE filename = $1` finds a row.
abbrev pub is_applied : {S : Type 0} → String → Database S → Bool
is_applied file db = any (str_eq file) db.applied

-- `execute` runs the SQL of a file on the rest of the database, `none` where it throws.
module _ {S : Type 0} (execute : (file : String) → S → Option S) where
  -- One file between BEGIN and COMMIT, or ROLLBACK.
  unfoldable pub apply_file : (file : String) → Database S → Option (Database S)
  apply_file file db = elim (execute file db.schema) [
    | none ↦ none
    | some schema ↦ some (record { applied = db.applied ++ (file ∷ []); schema = schema })
  ]

  unfoldable pub migrate_file : (file : String) → Database S → Option (Database S)
  migrate_file file db = if is_applied file db then some db else apply_file file db

  -- The loop over the files.
  unfoldable pub migrate_files : (files : List String) → Database S → Migrated S
  migrate_files [] db = record { complete = true; db = db }
  migrate_files (file ∷ files) db = elim (migrate_file file db) [
    | none ↦ record { complete = false; db = db }
    | some next ↦ migrate_files files next
  ]

  -- main, on the names that readdirSync gives; `is_sql` is `endsWith('.sql')`.
  unfoldable pub migrate :
      Js → (is_sql : String → Bool) → (names : List String) → Database S → Migrated S
  migrate js is_sql names db = migrate_files (sort_names js (filter is_sql names)) db
