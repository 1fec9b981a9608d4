-- ===== src/Signing/Payload.antt =====
-- src/security/internal-signing.ts: what is signed, the body's text and the request's lines.
use kisauth.Base.{String, Option, none, some, List, [], ◌∷◌, str_eq, if◌then◌else◌}
use kisauth.Base.Texts.{◌++◌}
use kisauth.Js.{Js}
use kisauth.Json.{Json, null, bool, num, str, arr, obj, Items, nil, cons, Fields, end, field}

abbrev pub join : String → List String → String
join sep [] = ""
join sep (x ∷ []) = x
join sep (x ∷ y ∷ rest) = x ++ (sep ++ join sep (y ∷ rest))

module _ (js : Js) where
  open js use {hmac, sha256, quote, print_number, parse_json, to_number, upper, may_precede}
  open js use {new_url, pathname, query}

  -- The entries of an object in the order of sort().
  unfoldable pub insert : String × String → List (String × String) → List (String × String)
  insert e [] = e ∷ []
  insert e (f ∷ rest) = if may_precede e.0 f.0 then e ∷ f ∷ rest else f ∷ insert e rest

  abbrev pub texts : List (String × String) → List String
  texts [] = []
  texts ((k, text) ∷ rest) = (quote k ++ (":" ++ text)) ∷ texts rest

  unfoldable mutual
    -- stableStringify(value)
    pub stable_stringify : Json → String
    stable_stringify null = ""
    stable_stringify (bool b) = if b then "true" else "false"
    stable_stringify (num n) = print_number n
    stable_stringify (str s) = quote s
    stable_stringify (arr items) = "[" ++ (join "," (stringify_items items) ++ "]")
    stable_stringify (obj fields) = "{" ++ (join "," (texts (sorted_entries fields)) ++ "}")

    pub stringify_items : Items → List String
    stringify_items nil = []
    stringify_items (cons v rest) = stable_stringify v ∷ stringify_items rest

    pub sorted_entries : Fields → List (String × String)
    sorted_entries end = []
    sorted_entries (field k v rest) = insert (k, stable_stringify v) (sorted_entries rest)

  -- stableStringify(body, typeof body === 'string')
  unfoldable pub body_text : Option Json → String
  body_text none = ""
  body_text (some (str s)) = elim (parse_json s) [ none ↦ s | some v ↦ stable_stringify v ]
  body_text (some v) = stable_stringify v

  unfoldable pub body_hash : Option Json → String
  body_hash body = sha256 (body_text body)

  -- Called with no `params` by every caller.
  unfoldable pub path_with_query : String → Option String
  path_with_query url_or_path = elim (new_url url_or_path "http://internal.local") [
    | none ↦ none
    | some parsed ↦
        let path = pathname parsed in
        let asked = query parsed in
        some
          ((if str_eq path "" then "/" else path) ++ (if str_eq asked "" then "" else "?" ++ asked))
  ]

  unfoldable pub signature_payload : (method path timestamp nonce hash : String) → String
  signature_payload method path timestamp nonce hash =
      join "\n"
        (upper method ∷ (if str_eq path "" then "/" else path) ∷ timestamp ∷ nonce ∷ hash ∷ [])

  unfoldable pub sign : (secret payload : String) → String
  sign secret payload = hmac secret payload
