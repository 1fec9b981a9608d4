-- ===== src/Oauth/Authorized.antt =====
-- What stands behind every session that GET /authorize of src/oauth/oauth.controller.ts creates.
use kisauth.Base.{true, false, String, Option, none, some, ◌≡◌, str_eq, ◌≤◌, ◌≢◌}
use Prim.Native.String.{count}
use mathlib.Core.List.{Memᴰ}
use kisauth.Js.{Js}
use kisauth.Json.{Json}
use kisauth.Redis.{Redis}
use kisauth.RateLimit.{authorize}
use kisauth.Session.{create}
use kisauth.Signing.{given}
use kisauth.LinkTicket.Genuine.{IsGenuine}
use kisauth.Clients.{RegisteredClient, find_by_client_id, active}
use kisauth.Service.{Config, World, Schedule}
use kisauth.Exchange.Admission.{IsAllowed}
use kisauth.Oauth.Authorize.{AuthorizeRequest, SessionRandoms, or_empty, slug_chars}

module _ (js : Js) (parse : String → Option Json) {r : Redis} (sch : Schedule r)
    (config : Config) where
  -- A link is for the account of a genuine ticket that the request carries, and nothing else is for
  -- an account.
  abbrev pub IsProven : AuthorizeRequest → World r → Option String → Type 0
  IsProven req w user =
      (str_eq (or_empty req.purpose) "link" ≡ true
        → (ticket u : String) × (given req.link_ticket ≡ some ticket)
          × (user ≡ some u)
          × IsGenuine r js.hmac parse (sch.clock 2) (sch.at 2) ticket config.internal_hmac_secret
              (sch.gap 2 w).redis u)
      × (str_eq (or_empty req.purpose) "link" ≡ false → user ≡ none)

  -- The client is active, with exactly the redirect URI and the purpose of the query; a state is given;
  -- and a partner is named by one to 64 characters of the pattern, if one is named.
  pub record IsAllowedQuery (req : AuthorizeRequest) (client : RegisteredClient) : Type 0 where
    pub purpose : String
    pub client_active : client.status ≡ active
    pub lists_redirect_uri : Memᴰ (or_empty req.redirect_uri) client.allowed_redirect_uris
    pub has_purpose : req.purpose ≡ some purpose
    pub lists_purpose : Memᴰ purpose client.allowed_purposes
    pub has_state : or_empty req.state ≢ ""
    pub slug :
        (s : String)
        → req.partner_slug ≡ some s
        → (1 ≤ count s) × (count s ≤ 64) × (slug_chars s ≡ true)

  -- What a redirection of /authorize shows: the limit let the request through, its client is
  -- registered and allows the redirect URI and the purpose, a link is proven, and Redis has just
  -- stored the session of the request, for the account that is proven.
  pub record Authorized (random : SessionRandoms) (req : AuthorizeRequest) (w w' : World r)
      : Type 0 where
    pub client : RegisteredClient
    pub link_user : Option String
    pub before_client : World r
    pub before_proof : World r
    pub before_session : World r
    pub allowed : IsAllowed js sch config 0 authorize req.ip w
    pub registered :
        find_by_client_id (or_empty req.client_id) (sch.gap 1 before_client).clients ≡ some client
    pub checked : IsAllowedQuery req client
    pub proven : IsProven req before_proof link_user
    pub stored :
        w'.redis
        ≡ (create r
            (sch.at 3)
            random.session_id
            (record {
              client_id = or_empty req.client_id;
              redirect_uri = or_empty req.redirect_uri;
              purpose = or_empty req.purpose;
              state = random.state;
              nonce = random.nonce;
              client_state = or_empty req.state;
              code_verifier = none;
              link_kis_user_id = given link_user;
              partner_slug = given req.partner_slug;
            })
            (sch.gap 3 before_session).redis).1
