-- ===== src/Web/Status.antt =====
-- src/web/web.controller.ts: GET / and GET /status.
use kisauth.Base.{String, Option, none, some, List, [], ◌∷◌, str_eq, any, if◌then◌else◌}
use kisauth.Js.{Js}
use kisauth.Signing.{given}
use kisauth.Web.Page.{Tone, success, error, neutral, ReturnTo, PageOptions, render_page}

-- The page options of a state, without the link.
pub record Copy : Type 0 where
  pub title : String
  pub heading : String
  pub message : String
  pub tone : Tone

abbrev copy : (title heading message : String) → Tone → Copy
copy title heading message tone = record {
  title = title;
  heading = heading;
  message = message;
  tone = tone;
}

abbrev pub invalid_request : Copy
invalid_request =
    copy "Something went wrong" "We couldn't complete this request"
      "Please return to KIS and try again." error

-- STATES
abbrev pub states : List (String × Copy)
states =
    (
      "success",
      copy "Signed in" "Authentication successful"
          "You're verified with Google. Returning you to KIS…" success,
    )
    ∷ (
      "recovery_success",
      copy "Account recovered" "Your KIS account has been verified"
          "You can now continue using KIS on this device." success,
    )
    ∷ (
      "registration_continue",
      copy "Almost there" "Google account verified"
          "Finishing your KIS account setup — returning you to the app…" success,
    )
    ∷ (
      "cancelled",
      copy "Cancelled" "Sign-in was cancelled"
          "You closed or cancelled Google sign-in. No changes were made to your account." neutral,
    )
    ∷ (
      "not_linked",
      copy "Account not linked" "This Google account isn't linked to a KIS account"
          "To use Google sign-in for recovery, first log in to KIS the usual way and link your Google account from Settings."
          neutral,
    )
    ∷ (
      "already_linked",
      copy "Already linked" "This Google account is already linked"
          "It's already connected to a different KIS account. Sign in to that account instead."
          error,
    )
    ∷ (
      "already_registered",
      copy "Already registered" "You already have a KIS account"
          "This Google account is already associated with a KIS account. Try signing in instead of signing up."
          neutral,
    )
    ∷ (
      "expired",
      copy "Session expired" "This sign-in session expired"
          "For your security, sign-in sessions time out after a few minutes. Please try again."
          error,
    )
    ∷ (
      "rate_limited",
      copy "Too many attempts" "Please try again shortly"
          "Too many attempts in a short time. Wait a minute and try again." error,
    )
    ∷ (
      "invalid_request",
      copy "Something went wrong" "We couldn't complete this request"
          "Please return to KIS and try again." error,
    )
    ∷ (
      "server_error",
      copy "Temporary error" "Something went wrong on our end"
          "This wasn't caused by anything you did. Please try again in a moment." error,
    )
    ∷ []

-- The names that every object of JavaScript inherits: STATES has a value for them too, which is no
-- record of texts.
abbrev pub inherited : List String
inherited =
    "constructor" ∷ "toString" ∷ "toLocaleString" ∷ "valueOf" ∷ "hasOwnProperty" ∷ "isPrototypeOf"
    ∷ "propertyIsEnumerable" ∷ "__proto__" ∷ "__defineGetter__" ∷ "__defineSetter__"
    ∷ "__lookupGetter__" ∷ "__lookupSetter__" ∷ []

abbrev pub find_copy : String → List (String × Copy) → Option Copy
find_copy name [] = none
find_copy name ((key, value) ∷ rest) = if str_eq key name then some value else find_copy name rest

-- `(state && STATES[state]) || STATES.invalid_request`; `none` is a value whose texts are undefined.
unfoldable pub choose_copy : (state : Option String) → Option Copy
choose_copy none = some invalid_request
choose_copy (some name) = elim (find_copy name states) [
  | some found ↦ some found
  | none ↦ if any (str_eq name) inherited then none else some invalid_request
]

-- The link of a client_redirect that parses.
unfoldable pub return_to : Js → (client_redirect : Option String) → Option ReturnTo
return_to js none = none
return_to js (some client_redirect) = elim (js.parse_url client_redirect) [
  | none ↦ none
  | some target ↦
      some (record { url = js.href target; label = "Return to KIS"; delay_seconds = none })
]

abbrev pub page_options : Copy → Option ReturnTo → PageOptions
page_options found link = record {
  title = found.title;
  heading = found.heading;
  message = found.message;
  tone = found.tone;
  return_to = link;
}

-- The body of GET /status; `none` is the TypeError of escapeHtml on an undefined title, which is
-- answered with 500.
unfoldable pub status :
    Js → (base_url : String) → (state client_redirect : Option String) → Option String
status js base_url state client_redirect = elim (choose_copy (given state)) [
  | none ↦ none
  | some found ↦
      some (render_page js base_url (page_options found (return_to js (given client_redirect))))
]

unfoldable pub welcome : Js → (base_url : String) → String
welcome js base_url = render_page js base_url (record {
  title = "Welcome";
  heading = "KIS Auth";
  message =
      "Secure authentication for Kingdom Impact Social. Open this from the KIS app to sign in or recover your account with Google — this page has nothing to do on its own.";
  tone = neutral;
  return_to = none;
})
