-- ===== src/Tests/Cookies.antt =====
-- A Cookie header.
use kisauth.Base.{String, Option, some, none, [], ◌∷◌, ◌≡◌, refl, str_eq, if◌then◌else◌}
use kisauth.Cookies.Parse.{
  parse_cookie_header, parse_parts, add_part, cut, trim, trim_start, trim_end,
}
use kisauth.LinkTicket.{split, split_from}
use kisauth.Cookies.Sent.{Cookie, IsSent}
use kisauth.Cookies.RoundTrip.{header_of, parse_cookie_header-header_of}

abbrev decode : String → Option String
decode s = if str_eq s "%" then none else some s

abbrev theme : Cookie
theme = record { name = "theme"; raw = "dark"; value = "dark" }

abbrev session : Cookie
session = record { name = "kisauth_session"; raw = "a=b"; value = "a=b" }

theme-IsSent : IsSent decode theme
theme-IsSent = record {
  named = λ e. cc;
  own = λ e. cc;
  name_plain = refl;
  name_whole = refl;
  name_one = refl;
  raw_plain = refl;
  raw_one = refl;
  decoded = refl;
}

session-IsSent : IsSent decode session
session-IsSent = record {
  named = λ e. cc;
  own = λ e. cc;
  name_plain = refl;
  name_whole = refl;
  name_one = refl;
  raw_plain = refl;
  raw_one = refl;
  decoded = refl;
}

parse_cookie_header-header_of_example :
    parse_cookie_header decode (some (header_of (theme ∷ session ∷ [])))
    ≡ some (("kisauth_session", "a=b") ∷ ("theme", "dark") ∷ [])
parse_cookie_header-header_of_example =
    parse_cookie_header-header_of decode (theme ∷ session ∷ []) (theme-IsSent, (session-IsSent, tt))

-- A cookie of this name sets no property.
dropped : parse_cookie_header decode (some "__proto__=x; a=b") ≡ some (("a", "b") ∷ [])
unfolding parse_cookie_header parse_parts add_part cut trim trim_start trim_end split split_from
dropped = refl

-- A part that does not decode makes the whole header throw, whatever it is called.
broken : parse_cookie_header decode (some "kisauth_session=a; x=%") ≡ none
unfolding parse_cookie_header parse_parts add_part cut trim trim_start trim_end split split_from
broken = refl
