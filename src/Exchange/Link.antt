-- ===== src/Exchange/Link.antt =====
-- POST /internal/v1/identity/link: src/exchange/identity-link.controller.ts.
use kisauth.Base.{ℕ, Bool, false, String, Option, none, some, [], ◌∷◌, ◌+◌}
use kisauth.Js.{Js}
use kisauth.Json.{Json}
use kisauth.Redis.{Redis}
use kisauth.Signing.{Header, given}
use kisauth.Identity.{LinkArgs, LinkResult, linked, already_linked, fault, link}
use kisauth.Events.{SecurityEvent, link_already_linked, link_succeeded, success, failure}
use kisauth.Service.{
  Config, Schedule, Handler, bad_request, conflict, internal_error, ◌>>=◌, pure, throw, emit, reply,
}
use kisauth.Exchange.{authenticate}

abbrev pub link_url : String
link_url = "/internal/v1/identity/link"

-- The body and its fields, as their types say, and the headers.
pub record LinkRequest : Type 0 where
  pub body : Option Json
  pub provider : Option String
  pub provider_subject : Option String
  pub kis_user_id : Option String
  pub provider_email : Option String
  pub provider_email_verified : Option Bool
  pub headers : String → Option Header

-- `value ?? false`
abbrev pub or_false : Option Bool → Bool
or_false none = false
or_false (some b) = b

abbrev pub read_link_args :
    (provider provider_subject kis_user_id : Option String) → LinkRequest → Option LinkArgs
read_link_args (some provider) (some provider_subject) (some kis_user_id) req = some (record {
  provider = provider;
  provider_subject = provider_subject;
  kis_user_id = kis_user_id;
  provider_email = req.provider_email;
  provider_email_verified = or_false req.provider_email_verified;
})
read_link_args _ _ _ req = none

abbrev pub link_conflict : LinkArgs → SecurityEvent
link_conflict args = record {
  event_type = link_already_linked;
  outcome = failure;
  kis_user_id = some args.kis_user_id;
  client_id = none;
  reason = some "post_registration_link_conflict";
  ip = none;
  metadata = [];
}

abbrev pub link_success : LinkArgs → SecurityEvent
link_success args = record {
  event_type = link_succeeded;
  outcome = success;
  kis_user_id = some args.kis_user_id;
  client_id = none;
  reason = none;
  ip = none;
  metadata = ("via", some "registration") ∷ [];
}

module _ (js : Js) (uuid : String → Option String) {r : Redis} (sch : Schedule r)
    (config : Config) where
  -- `identities.link`: its first statement is step k and its second is the step after.
  unfoldable pub link_identity : (k : ℕ) → (fresh_id : String) → LinkArgs → Handler r LinkResult
  link_identity k fresh_id args w =
      let before = sch.gap k w in
      let after = sch.gap (k + 1) before in
      let (result, rows) =
        link uuid (sch.at (k + 1)) fresh_id (λ _. after.identities) args before.identities in
      (reply result, record after { identities = rows })

  unfoldable pub require_args : LinkRequest → Handler r LinkArgs
  require_args req =
      elim (read_link_args (given req.provider) (given req.provider_subject) (given req.kis_user_id)
        req) [ none ↦ throw bad_request | some args ↦ pure args ]

  -- The answer is the id of the identity.
  unfoldable pub answer_link : LinkArgs → LinkResult → Handler r String
  answer_link args already_linked = do _ ← emit (link_conflict args); throw conflict
  answer_link args fault = throw internal_error
  answer_link args (linked identity) = do _ ← emit (link_success args); pure identity.id

  unfoldable pub handle_link : (fresh_id : String) → LinkRequest → Handler r String
  handle_link fresh_id req = do
    _ ← authenticate js sch config 0 link_url req.body req.headers none
    args ← require_args req
    result ← link_identity 1 fresh_id args
    answer_link args result
