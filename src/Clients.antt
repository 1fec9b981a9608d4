-- ===== src/Clients.antt =====
-- src/clients/client.service.ts over the table client of src/db/migrations/001_init.sql.
pub mod Registration
use kisauth.Base.{
  Bool, true, false, String, Option, none, some, List, [], ◌∷◌, ◌&&◌, str_eq, any, find,
  if◌then◌else◌,
}
use kisauth.Records.{◌>>=◌}

pub data Status : Type 0 where
  active disabled : Status

-- RegisteredClient, which is also the row of the table.
pub record RegisteredClient : Type 0 where
  pub client_id : String
  pub name : String
  pub status : Status
  pub allowed_redirect_uris : List String
  pub allowed_scopes : List String
  pub allowed_purposes : List String

-- The argument of register.
pub record Entry : Type 0 where
  pub client_id : String
  pub name : String
  pub allowed_redirect_uris : List String
  pub allowed_scopes : List String
  pub allowed_purposes : List String

abbrev pub is_active : Status → Bool
is_active active = true
is_active disabled = false

-- `list.includes(s)`
abbrev pub includes : List String → String → Bool
includes l s = any (λ x. str_eq x s) l

abbrev pub has_client_id : String → RegisteredClient → Bool
has_client_id client_id row = str_eq row.client_id client_id

unfoldable pub find_by_client_id : String → List RegisteredClient → Option RegisteredClient
find_by_client_id client_id rows = find (has_client_id client_id) rows

unfoldable pub is_redirect_uri_allowed : RegisteredClient → String → Bool
is_redirect_uri_allowed client redirect_uri =
    is_active client.status && includes client.allowed_redirect_uris redirect_uri

unfoldable pub is_purpose_allowed : RegisteredClient → String → Bool
is_purpose_allowed client purpose =
    is_active client.status && includes client.allowed_purposes purpose

-- The row that the INSERT adds, and the row that `DO UPDATE SET` leaves.
abbrev pub with_status : Status → Entry → RegisteredClient
with_status status entry = record {
  client_id = entry.client_id;
  name = entry.name;
  status = status;
  allowed_redirect_uris = entry.allowed_redirect_uris;
  allowed_scopes = entry.allowed_scopes;
  allowed_purposes = entry.allowed_purposes;
}

unfoldable pub register : Entry → List RegisteredClient → List RegisteredClient
register entry [] = with_status active entry ∷ []
register entry (row ∷ rest) =
    let later = register entry rest in
    if has_client_id entry.client_id row then with_status row.status entry ∷ rest else row ∷ later
