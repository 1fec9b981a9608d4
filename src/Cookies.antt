-- ===== src/Cookies.antt =====
-- src/http/cookies.ts: the session cookie.
pub mod Parse
pub mod Sent
pub mod RoundTrip
use kisauth.Base.{ℕ, Bool, String, [], ◌∷◌, ◌++◌, if◌then◌else◌}
use kisauth.Base.Texts
use kisauth.Js.{Js}
use kisauth.Signing.Payload.{join}

-- The parts of serializeSessionCookie, which are joined by "; ".
unfoldable pub serialize_session_cookie :
    (js : Js) → (name value : String) → (secure : Bool) → (max_age_seconds : ℕ) → String
serialize_session_cookie js name value secure max_age_seconds = join "; " (
    (Texts.◌++◌ name (Texts.◌++◌ "=" (js.encode_component value))
      ∷ "Path=/"
      ∷ "HttpOnly"
      ∷ "SameSite=Lax"
      ∷ Texts.◌++◌ "Max-Age=" (js.print_nat max_age_seconds)
      ∷ [])
    ++ (if secure then "Secure" ∷ [] else []))
