-- ===== src/Oauth/Authorize.antt =====
-- GET /authorize: src/oauth/oauth.controller.ts.
use Prim.Native.Char.{code}
use Prim.Native.String.{count}
use kisauth.Base.{
  ℕ, Bool, true, false, String, Option, none, some, [], ◌&&◌, ◌||◌, ◌==◌, leb, str_eq, not,
  if◌then◌else◌,
}
use kisauth.Base.Texts.{◌++◌}
use kisauth.Js.{Js}
use kisauth.Json.{Json}
use kisauth.Redis.{Redis}
use kisauth.Records.{OAuthSession}
use kisauth.RateLimit.{authorize}
use kisauth.Session.{create}
use kisauth.Signing.{given}
use kisauth.LinkTicket.{
  VerifyResult, Reason, ok, refused, fault, malformed, signature_mismatch, expired, already_used,
  verify_and_consume,
}
use kisauth.Clients.{
  RegisteredClient, find_by_client_id, is_redirect_uri_allowed, is_purpose_allowed,
}
use kisauth.Events.{SecurityEvent, link_failed, failure}
use kisauth.Service.{
  Config, Schedule, Handler, bad_request, internal_error, ◌>>=◌, pure, throw, emit, limit_rate,
  reply,
}
use kisauth.Cookies.{serialize_session_cookie}

-- The parameters of the query, and the address of the peer.
pub record AuthorizeRequest : Type 0 where
  pub client_id : Option String
  pub redirect_uri : Option String
  pub purpose : Option String
  pub state : Option String
  pub link_ticket : Option String
  pub partner_slug : Option String
  pub ip : String

-- The texts of randomBytes: the session's id, state and nonce.
pub record SessionRandoms : Type 0 where
  pub session_id : String
  pub state : String
  pub nonce : String

pub record Redirection : Type 0 where
  pub set_cookie : String
  pub location : String

-- `value ?? ''`
abbrev pub or_empty : Option String → String
or_empty none = ""
or_empty (some s) = s

-- PARTNER_SLUG_PATTERN: one to 64 small letters, digits and hyphens.
abbrev pub is_slug_char : ℕ → Bool
is_slug_char c = (leb 97 c && leb c 122) || ((leb 48 c && leb c 57) || c == 45)

abbrev pub slug_chars : String → Bool
slug_chars String.[] = true
slug_chars (String.◌∷◌ c rest) = is_slug_char (code c) && slug_chars rest

unfoldable pub is_partner_slug : String → Bool
is_partner_slug s = leb 1 (count s) && (leb (count s) 64 && slug_chars s)

abbrev pub slug_allowed : Option String → Bool
slug_allowed none = true
slug_allowed (some s) = is_partner_slug s

abbrev pub purpose_allowed : RegisteredClient → Option String → Bool
purpose_allowed client none = false
purpose_allowed client (some purpose) = is_purpose_allowed client purpose

-- The four tests on the query, behind the search for the client.
unfoldable pub may_authorize : AuthorizeRequest → RegisteredClient → Bool
may_authorize req client =
    is_redirect_uri_allowed client (or_empty req.redirect_uri)
    && (purpose_allowed client req.purpose
        && (not (str_eq (or_empty req.state) "") && slug_allowed req.partner_slug))

abbrev pub reason_text : Reason → String
reason_text malformed = "malformed"
reason_text signature_mismatch = "signature_mismatch"
reason_text expired = "expired"
reason_text already_used = "already_used"

abbrev pub link_failure : AuthorizeRequest → Reason → SecurityEvent
link_failure req reason = record {
  event_type = link_failed;
  outcome = failure;
  kis_user_id = none;
  client_id = req.client_id;
  reason = some ("link_ticket_" ++ reason_text reason);
  ip = some req.ip;
  metadata = [];
}

abbrev pub new_session : AuthorizeRequest → SessionRandoms → Option String → OAuthSession
new_session req random link_user = record {
  client_id = or_empty req.client_id;
  redirect_uri = or_empty req.redirect_uri;
  purpose = or_empty req.purpose;
  state = random.state;
  nonce = random.nonce;
  client_state = or_empty req.state;
  code_verifier = none;
  link_kis_user_id = given link_user;
  partner_slug = given req.partner_slug;
}

-- `parse` is base64url decoding and JSON.parse, as in link-ticket.ts.
module _ (js : Js) (parse : String → Option Json) {r : Redis} (sch : Schedule r)
    (config : Config) where
  unfoldable pub find_client : AuthorizeRequest → Handler r RegisteredClient
  find_client req w =
      let now = sch.gap 1 w in
      elim (find_by_client_id (or_empty req.client_id) now.clients) [
        | none ↦ throw bad_request now
        | some client ↦
            if may_authorize req client then (reply client, now) else throw bad_request now
      ]

  unfoldable pub take_link_ticket : String → Handler r VerifyResult
  take_link_ticket ticket w =
      let now = sch.gap 2 w in
      let (result, σ) =
        verify_and_consume r js.hmac parse (sch.clock 2) (sch.at 2) ticket
          config.internal_hmac_secret now.redis in
      (reply result, record now { redis = σ })

  unfoldable pub accept_link_ticket : AuthorizeRequest → VerifyResult → Handler r (Option String)
  accept_link_ticket req (ok kis_user_id) = pure (some kis_user_id)
  accept_link_ticket req fault = throw internal_error
  accept_link_ticket req (refused reason) = do _ ← emit (link_failure req reason); throw bad_request

  unfoldable pub redeem_link_ticket : AuthorizeRequest → String → Handler r (Option String)
  redeem_link_ticket req ticket = do result ← take_link_ticket ticket; accept_link_ticket req result

  -- The account that a link is for; `none` for every other purpose.
  unfoldable pub prove_account :
      AuthorizeRequest → (ticket : Option String) → Handler r (Option String)
  prove_account req none =
      if str_eq (or_empty req.purpose) "link" then throw bad_request else pure none
  prove_account req (some ticket) =
      if str_eq (or_empty req.purpose) "link" then redeem_link_ticket req ticket else pure none

  unfoldable pub create_session : OAuthSession → SessionRandoms → Handler r String
  create_session session random w =
      let now = sch.gap 3 w in
      let (id, σ) = create r (sch.at 3) random.session_id session now.redis in
      (reply id, record now { redis = σ })

  unfoldable pub start_of : Option String → String
  start_of none = "/oauth/google/start"
  start_of (some slug) = "/oauth/enterprise/" ++ (js.encode_component slug ++ "/start")

  unfoldable pub handle_authorize : SessionRandoms → AuthorizeRequest → Handler r Redirection
  handle_authorize random req = do
    _ ← limit_rate sch 0 authorize req.ip
    _ ← find_client req
    link_user ← prove_account req (given req.link_ticket)
    id ← create_session (new_session req random link_user) random
    pure (record {
      set_cookie = serialize_session_cookie js "kisauth_session" id config.is_production 600;
      location = start_of (given req.partner_slug);
    })
