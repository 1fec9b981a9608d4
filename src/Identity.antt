-- ===== src/Identity.antt =====
-- src/identity/identity.service.ts over the table auth_identity of src/db/migrations/001_init.sql.
-- A SQL statement is a function on the list of rows; `gap` is what other connections do between two
-- statements. The columns created_at and updated_at, which nothing reads, are left out.
pub mod Table
pub mod Bindings
pub mod Linked
use kisauth.Base.{
  ℕ, Bool, String, Option, none, some, List, [], ◌∷◌, ◌++◌, ◌&&◌, ◌||◌, str_eq, not, any,
  if◌then◌else◌, find,
}
use kisauth.Records.{◌>>=◌}

pub data Status : Type 0 where
  active revoked : Status

pub record AuthIdentity : Type 0 where
  pub id : String
  pub provider : String
  pub provider_subject : String
  pub kis_user_id : String
  pub provider_email : Option String
  pub provider_email_verified : Bool
  pub status : Status

-- A row: what mapRow reads, and the column last_authenticated_at.
pub record Row : Type 0 where
  pub identity : AuthIdentity
  pub last_authenticated_at : Option ℕ

abbrev pub Rows : Type 0
Rows = List Row

pub record LinkArgs : Type 0 where
  pub provider : String
  pub provider_subject : String
  pub kis_user_id : String
  pub provider_email : Option String
  pub provider_email_verified : Bool

-- What link returns; `fault` is an error that it throws.
pub data LinkResult : Type 0 where
  linked : AuthIdentity → LinkResult
  already_linked : LinkResult
  fault : LinkResult

-- `WHERE provider = $1 AND provider_subject = $2`
abbrev pub has_subject : (provider provider_subject : String) → Row → Bool
has_subject provider provider_subject row =
    str_eq row.identity.provider provider && str_eq row.identity.provider_subject provider_subject

-- `WHERE id = $1`
abbrev pub has_id : String → Row → Bool
has_id id row = str_eq row.identity.id id

-- `UPDATE auth_identity SET … WHERE …`
abbrev pub update_rows : (Row → Bool) → (Row → Row) → Rows → Rows
update_rows here change [] = []
update_rows here change (row ∷ rest) =
    (if here row then change row else row) ∷ update_rows here change rest

-- The primary key and the two UNIQUE constraints: the new row would break one.
abbrev pub clashes : AuthIdentity → Row → Bool
clashes new row =
    str_eq row.identity.id new.id
    || (has_subject new.provider new.provider_subject row
        || str_eq row.identity.kis_user_id new.kis_user_id)

-- `INSERT`, refused with unique_violation.
abbrev pub insert_row : Row → Rows → Option Rows
insert_row new rows =
    if any (λ row. clashes new.identity row) rows then none else some (rows ++ (new ∷ []))

abbrev pub map_row : Row → AuthIdentity
map_row row = row.identity

abbrev pub set_email : (now : ℕ) → LinkArgs → Row → Row
set_email now args row = record {
  identity = record row.identity {
    provider_email = args.provider_email;
    provider_email_verified = args.provider_email_verified;
  };
  last_authenticated_at = some now;
}

abbrev pub new_row : (now : ℕ) → (id kis_user_id : String) → LinkArgs → Row
new_row now id kis_user_id args = record {
  identity = record {
    id = id;
    provider = args.provider;
    provider_subject = args.provider_subject;
    kis_user_id = kis_user_id;
    provider_email = args.provider_email;
    provider_email_verified = args.provider_email_verified;
    status = active;
  };
  last_authenticated_at = some now;
}

unfoldable pub find_by_provider_subject :
    (provider provider_subject : String) → Rows → Option AuthIdentity
find_by_provider_subject provider provider_subject rows = do
  row ← find (has_subject provider provider_subject) rows
  some (map_row row)

-- `uuid` is how Postgres reads a uuid from text and prints it: `none` where it refuses the text.
module _ (uuid : String → Option String) where
  -- `none` is the error of a text that is no uuid.
  unfoldable pub find_by_id : String → Rows → Option (Option AuthIdentity)
  find_by_id id rows = elim (uuid id) [
    | none ↦ none
    | some key ↦ some (do row ← find (has_id key) rows; some (map_row row))
  ]

  unfoldable pub touch_last_authenticated : (now : ℕ) → String → Rows → Option Rows
  touch_last_authenticated now id rows = elim (uuid id) [
    | none ↦ none
    | some key ↦
        some
          (update_rows (has_id key) (λ row. record row { last_authenticated_at = some now }) rows)
  ]

  -- The UPDATE of a pair that is linked to the account already; without a row to return, mapRow
  -- throws.
  unfoldable pub relink : (now : ℕ) → AuthIdentity → LinkArgs → Rows → LinkResult × Rows
  relink now existing args rows =
      let changed = update_rows (has_id existing.id) (set_email now args) rows in
      elim (find (has_id existing.id) changed) [
        | none ↦ (fault, changed)
        | some row ↦ (linked (map_row row), changed)
      ]

  unfoldable pub insert_link : (now : ℕ) → (fresh_id : String) → LinkArgs → Rows → LinkResult × Rows
  insert_link now fresh_id args rows = elim (uuid args.kis_user_id) [
    | none ↦ (fault, rows)
    | some user ↦ elim (insert_row (new_row now fresh_id user args) rows) [
      | none ↦ (already_linked, rows)
      | some rows' ↦ (linked (map_row (new_row now fresh_id user args)), rows')
    ]
  ]

  -- `fresh_id` is the value of gen_random_uuid().
  unfoldable pub link :
      (now : ℕ) → (fresh_id : String) → (gap : Rows → Rows) → LinkArgs → Rows → LinkResult × Rows
  unfolding relink insert_link
  link now fresh_id gap args rows =
      elim (find_by_provider_subject args.provider args.provider_subject rows) [
        | some existing ↦
            if not (str_eq existing.kis_user_id args.kis_user_id)
            then (already_linked, gap rows)
            else relink now existing args (gap rows)
        | none ↦ insert_link now fresh_id args (gap rows)
      ]
