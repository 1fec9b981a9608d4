-- ===== src/Json.antt =====
-- JSON values as JSON.parse returns them, and the `typeof` tests that the code makes on them.
use kisauth.Base.{Bool, String, Option, none, some, str_eq, if◌then◌else◌}
use kisauth.Base.Number.{Number}
use kisauth.Records.{◌>>=◌}

mutual
  pub data Json : Type 0 where
    null : Json
    bool : Bool → Json
    num : Number → Json
    str : String → Json
    arr : Items → Json
    obj : Fields → Json

  pub data Items : Type 0 where
    nil : Items
    cons : Json → Items → Items

  pub data Fields : Type 0 where
    end : Fields
    field : String → Json → Fields → Fields

-- A field that is missing reads as `undefined`.
abbrev pub lookup : String → Fields → Option Json
lookup k end = none
lookup k (field j v rest) = if str_eq j k then some v else lookup k rest

-- `value[k]`. `null[k]` throws and other values have no such fields: all fail the tests below.
abbrev pub member : String → Json → Option Json
member k (obj fields) = lookup k fields
member k _ = none

abbrev pub as_string : Json → Option String
as_string (str s) = some s
as_string _ = none

abbrev pub as_number : Json → Option Number
as_number (num n) = some n
as_number _ = none

-- `typeof value[k] === 'string'`, with the text.
abbrev pub string_field : String → Json → Option String
string_field k value = do v ← member k value; as_string v

abbrev pub number_field : String → Json → Option Number
number_field k value = do v ← member k value; as_number v
