-- ===== src/Cookies/Parse.antt =====
-- parseCookieHeader of src/http/cookies.ts.
use Prim.Native.Char.{Char, code}
use kisauth.Base.{
  ℕ, Bool, String, Option, none, some, List, [], ◌∷◌, ◌&&◌, ◌||◌, ◌==◌, leb, str_eq, if◌then◌else◌,
}
use mathlib.Core.Option
use kisauth.LinkTicket.{split}
use kisauth.Signing.{given}

-- The code points that String.prototype.trim takes off.
abbrev pub is_space : ℕ → Bool
is_space c =
    (leb 9 c && leb c 13)
    || (c == 32
        || (c == 160
            || (c == 5760
                || ((leb 8192 c && leb c 8202)
                    || (c == 8232
                        || (c == 8233
                            || (c == 8239 || (c == 8287 || (c == 12288 || c == 65279)))))))))

unfoldable pub trim_start : String → String
trim_start String.[] = ""
trim_start (String.◌∷◌ x s) =
    let rest = trim_start s in if is_space (code x) then rest else String.◌∷◌ x s

-- A character goes if it is a space and nothing is left behind it.
abbrev pub unless_blank : Char → String → String
unless_blank x rest = if is_space (code x) && str_eq rest "" then "" else String.◌∷◌ x rest

unfoldable pub trim_end : String → String
trim_end String.[] = ""
trim_end (String.◌∷◌ x s) = unless_blank x (trim_end s)

unfoldable pub trim : String → String
unfolding trim_start trim_end
trim s = trim_end (trim_start s)

abbrev pub onto : Char → Option (String × String) → Option (String × String)
onto x none = none
onto x (some (before, after)) = some (String.◌∷◌ x before, after)

-- `part.slice(0, idx)` and `part.slice(idx + 1)` for `idx = part.indexOf(c)`; `none` is -1.
unfoldable pub cut : ℕ → String → Option (String × String)
cut c String.[] = none
cut c (String.◌∷◌ x s) = let later = cut c s in if code x == c then some ("", s) else onto x later

-- `decode` is decodeURIComponent, `none` where it throws. The object that is filled is a list with
-- the newest assignment first; `none` is an exception. To assign a text to `__proto__` of an object
-- changes nothing.
module _ (decode : String → Option String) where
  abbrev pub add_pair :
      (name value : String) → List (String × String) → Option (List (String × String))
  add_pair name value out =
      if str_eq name ""
      then some out
      else Option.map (λ v. if str_eq name "__proto__" then out else (name, v) ∷ out) (decode value)

  unfoldable pub add_part :
      (part : String) → List (String × String) → Option (List (String × String))
  add_part part out = elim (cut b'=' part) [
    | none ↦ some out
    | some pair ↦ add_pair (trim pair.0) (trim pair.1) out
  ]

  unfoldable pub parse_parts :
      (parts : List String) → List (String × String) → Option (List (String × String))
  parse_parts [] out = some out
  parse_parts (part ∷ parts) out = elim (add_part part out) [
    | none ↦ none
    | some more ↦ parse_parts parts more
  ]

  unfoldable pub parse_cookie_header : Option String → Option (List (String × String))
  parse_cookie_header header = elim (given header) [
    | none ↦ some []
    | some text ↦ parse_parts (split b';' text) []
  ]
