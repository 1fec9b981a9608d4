-- ===== src/Tests/Oauth.antt =====
-- A browser at /authorize, and a user who returns, on the state in memory.
use kisauth.Base.{String, Option, some, none, [], ◌∷◌, refl, arith}
use kisauth.Base.Int.{pos}
use kisauth.Base.Number.{whole}
use kisauth.Json.{Json, str, num, obj, field, end}
use kisauth.Records.{OAuthSession}
use kisauth.Redis.Memory.{memory, nothing}
use kisauth.Session.{delete}
use kisauth.Challenge.{create_challenge, get_challenge, issue_authorization_code}
use kisauth.Clients.{RegisteredClient, active}
use kisauth.Identity.{touch_last_authenticated}
use kisauth.Service.{World, ◌>>=◌}
use kisauth.Service.Laws.{Returns}
use kisauth.Oauth.{status_redirect_url, location, redirect, delete_session}
use kisauth.Oauth.Authorize.{AuthorizeRequest, SessionRandoms}
use kisauth.Oauth.Authorized.{Authorized}
use kisauth.Oauth.Outcome.{
  Randoms, confirm, new_challenge, find_challenge, mark_used, issue_code, confirm_and_redirect,
}
use kisauth.Oauth.Finish.{touch, finalize_returning_user}
use kisauth.Oauth.Code.{HasIssued, code_payload, returning_user-HasIssued}
use kisauth.Oauth.Destination.{GoesTo, SentBack, as_return, outcome-GoesTo}
use kisauth.Tests.Runtime.{js}
use kisauth.Tests.Exchange.{as_is, config, quiet, row, world}

abbrev decode : String → Option Json
decode text = some (
    obj (
      field "kisUserId" (str "u1")
        (field "nonce" (str "n1") (field "exp" (num (whole (pos 120))) end))))

abbrev browser : AuthorizeRequest
browser = record {
  client_id = some "kis-django";
  redirect_uri = some "https://app/cb";
  purpose = some "link";
  state = some "s";
  link_ticket = some "p.hkp";
  partner_slug = some "acme-1";
  ip = "::1";
}

abbrev client : RegisteredClient
client = record {
  client_id = "kis-django";
  name = "app";
  status = active;
  allowed_redirect_uris = "https://app/cb" ∷ [];
  allowed_scopes = [];
  allowed_purposes = "link" ∷ [];
}

abbrev pub start : World memory
start = record (world nothing) { clients = client ∷ [] }

abbrev session_randoms : SessionRandoms
session_randoms = record { session_id = "sid"; state = "st"; nonce = "no" }

abbrev pub randoms : Randoms
randoms = record { challenge_id = "ch"; row_id = "i9"; secret = "code" }

abbrev pub session : OAuthSession
session = record {
  client_id = "kis-django";
  redirect_uri = "https://app/cb";
  purpose = "recovery";
  state = "st";
  nonce = "no";
  client_state = "s";
  code_verifier = none;
  link_kis_user_id = none;
  partner_slug = none;
}

returned :
    Returns
      (finalize_returning_user js as_is quiet config randoms "::1" 4 "g1"
        (some row.identity)
        session
        "sid")
      start
      "/statusstaterecovery_successclient_redirecthttps://app/cbcodecodestates"
      (finalize_returning_user js as_is quiet config randoms "::1" 4 "g1"
        (some row.identity)
        session
        "sid"
        start).1
unfolding finalize_returning_user touch touch_last_authenticated new_challenge delete_session delete
    confirm_and_redirect find_challenge get_challenge create_challenge confirm mark_used issue_code
    issue_authorization_code redirect location status_redirect_url ◌>>=◌
returned = refl

returning_user-HasIssued_example :
    HasIssued js as_is quiet config randoms "::1" 11
      (code_payload js as_is quiet config randoms "::1" "recovery" "kis-django" "u1" "i1"
        "https://app/cb")
      (finalize_returning_user js as_is quiet config randoms "::1" 4 "g1"
        (some row.identity)
        session
        "sid"
        start).1.redis
    × SentBack js as_is quiet config randoms "::1" "recovery_success"
        (("code", "code") ∷ ("state", "s") ∷ [])
        "https://app/cb"
        "/statusstaterecovery_successclient_redirecthttps://app/cbcodecodestates"
returning_user-HasIssued_example =
    returning_user-HasIssued js as_is quiet config randoms "::1" 4 "g1" row.identity session "sid"
      start _ _ (record { ordered = λ j k h. omega arith; untouched = λ k t w. refl }) returned

outcome-GoesTo_example :
    GoesTo js as_is quiet config randoms "::1" "https://app/cb"
      "/statusstaterecovery_successclient_redirecthttps://app/cbcodecodestates"
outcome-GoesTo_example =
    outcome-GoesTo js as_is quiet config randoms "::1" 4 (as_return "g1" (some row.identity))
      session "sid" start _ _ returned
