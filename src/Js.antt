-- ===== src/Js.antt =====
-- What the program takes from its runtime and from node's crypto and url: parameters of the model.
use kisauth.Base.{ℕ, Bool, String, Option}
use kisauth.Base.Number.{Number}
use kisauth.Json.{Json}

pub record Js : Type 1 where
  -- crypto: HMAC-SHA256 and SHA-256 in hex, SHA-256 in base64url
  pub hmac : (secret payload : String) → String
  pub sha256 : String → String
  pub sha256_base64url : String → String
  -- JSON.stringify of a text and of a number, JSON.parse (`none` where it throws), Number(text)
  pub quote : String → String
  pub print_number : Number → String
  pub parse_json : String → Option Json
  pub to_number : String → Number
  -- toUpperCase, and the order in which sort() puts texts: whether the first may stand before
  pub upper : String → String
  pub may_precede : String → String → Bool
  -- String(n) of a whole number
  pub print_nat : ℕ → String
  -- encodeURIComponent
  pub encode_component : String → String
  -- new URL(text, base) and new URL(text), `none` where it throws; pathname, searchParams.toString(),
  -- searchParams.set, toString
  pub Url : Type 0
  pub new_url : (text base : String) → Option Url
  pub parse_url : String → Option Url
  pub pathname : Url → String
  pub query : Url → String
  pub set_param : (name value : String) → Url → Url
  pub href : Url → String
