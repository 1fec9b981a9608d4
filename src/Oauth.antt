-- ===== src/Oauth.antt =====
-- src/oauth: the browser's way through a provider. This file has the redirect to the status page
-- (status-redirect.ts) and the steps that the handlers share.
pub mod Authorize
pub mod Authorized
pub mod Outcome
pub mod Callback
pub mod Start
pub mod Tenant
pub mod Started
pub mod Returned
pub mod Answered
pub mod Finish
pub mod Destination
pub mod Issued
pub mod Code
pub mod Spent
pub mod Finalized
pub mod Consumed
pub mod Enterprise
use kisauth.Base.{ℕ, String, Option, none, some, List, [], ◌∷◌}
use kisauth.Js.{Js}
use kisauth.Redis.{Redis}
use kisauth.Records.{OAuthSession, ◌>>=◌}
use kisauth.Session.{delete}
use kisauth.Events.{EventType, EventOutcome, SecurityEvent}
use kisauth.Service.{Config, World, Schedule, Handler, internal_error, pure, throw, reply}

-- statusRedirectUrl; `none` is a URL that does not parse.
unfoldable pub status_redirect_url :
    (js : Js) → (base_url state client_target : String) → Option String
status_redirect_url js base_url state client_target = do
  url ← js.new_url "/status" base_url
  some (js.href (js.set_param "client_redirect" client_target (js.set_param "state" state url)))

-- `target.searchParams.set(…)`, in order.
abbrev pub set_params : (js : Js) → List (String × String) → js.Url → js.Url
set_params js [] url = url
set_params js ((name, value) ∷ rest) url = set_params js rest (js.set_param name value url)

-- The client's URL with the answer, behind the status page.
unfoldable pub location :
    (js : Js) → (base_url status redirect_uri : String) → List (String × String) → Option String
location js base_url status redirect_uri params = do
  target ← js.parse_url redirect_uri
  status_redirect_url js base_url status (js.href (set_params js params target))

module _ (js : Js) {r : Redis} (sch : Schedule r) (config : Config) where
  -- `return res.redirect(statusRedirectUrl(status, target.toString()), 303)`; the answer is the
  -- location.
  unfoldable pub redirect :
      (status redirect_uri : String) → List (String × String) → Handler r String
  redirect status redirect_uri params =
      elim (location js config.base_url status redirect_uri params) [
        | none ↦ throw internal_error
        | some url ↦ pure url
      ]

  unfoldable pub delete_session : (k : ℕ) → String → Handler r Unit
  delete_session k id w =
      let now = sch.gap k w in (reply tt, record now { redis = delete r id now.redis })
