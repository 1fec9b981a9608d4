-- ===== src/Tests/Recovered.antt =====
-- A returning user who must be signed in, on the state in memory.
use kisauth.Base.{[], ◌∷◌, none, some, refl, arith}
use kisauth.Redis.Memory.{memory}
use kisauth.RateLimit.{check, rate_limits, exchange_per_ip, exchange_per_client}
use kisauth.Challenge.{
  consume_authorization_code, issue_authorization_code, create_challenge, get_challenge,
}
use kisauth.Identity.{find_by_id, touch_last_authenticated}
use kisauth.Jwt.{sign as token_sign}
use kisauth.LinkTicket.{same_bytes}
use kisauth.Session.{delete}
use kisauth.Signing.{verify_internal_signature, outside_window}
use kisauth.Signing.Payload.{path_with_query, signature_payload, body_hash, body_text, sign}
use kisauth.Events.{exchange_failed}
use kisauth.Service.{World, ◌>>=◌, counted_within, limit_rate}
use kisauth.Service.Laws.{Returns}
use kisauth.Oauth.{status_redirect_url, location, redirect, delete_session}
use kisauth.Oauth.Outcome.{
  Randoms, confirm, new_challenge, find_challenge, mark_used, issue_code, confirm_and_redirect,
}
use kisauth.Oauth.Finish.{touch, finalize_returning_user}
use kisauth.Exchange.{
  verify_request, accept_signature, authenticate, limit_client, exchange_failure,
}
use kisauth.Exchange.Admission.{limit_rate-IsAllowed, authenticate-IsSigned}
use kisauth.Exchange.Code.{exchange_url, take_code, exchange}
use kisauth.Oauth.Destination.{SentBack}
use kisauth.Exchange.Recovered.{IsRedemption, recovery_completes}
use kisauth.Tests.Runtime.{js}
use kisauth.Tests.Exchange.{as_is, rs256, config, quiet, row, code_request, issued}
use kisauth.Tests.Oauth.{randoms, session, start}
use kisauth.Tests.Completed.{met, counted, ip_let_through, client_let_through, genuine}

-- The random texts of the callback, with the code that is then redeemed.
abbrev drawn : Randoms
drawn = record randoms { secret = "abc" }

abbrev left : World memory
left =
    (finalize_returning_user js as_is quiet config drawn "::1" 4 "g1" (some row.identity) session
      "sid" start).1

sent_back :
    Returns
      (finalize_returning_user js as_is quiet config drawn "::1" 4 "g1"
        (some row.identity)
        session
        "sid")
      start
      "/statusstaterecovery_successclient_redirecthttps://app/cbcodeabcstates"
      left
unfolding finalize_returning_user touch touch_last_authenticated new_challenge delete_session delete
    confirm_and_redirect find_challenge get_challenge create_challenge confirm mark_used issue_code
    issue_authorization_code redirect location status_redirect_url ◌>>=◌
sent_back = refl

redemption :
    IsRedemption js as_is rs256 quiet quiet config drawn "::1" 4 session row.identity left.redis
      "j1" code_request issued "token"
unfolding limit_rate limit_client counted_within check rate_limits authenticate verify_request
    accept_signature ◌>>=◌ verify_internal_signature path_with_query signature_payload body_hash
    body_text sign outside_window same_bytes issue_authorization_code take_code
    consume_authorization_code find_by_id token_sign finalize_returning_user touch
    touch_last_authenticated new_challenge delete_session delete confirm_and_redirect find_challenge
    get_challenge create_challenge confirm mark_used issue_code redirect location
    status_redirect_url
redemption = record {
  has_code = refl;
  has_client_id = refl;
  has_redirect_uri = refl;
  ip_allowed =
      limit_rate-IsAllowed js quiet config 0 exchange_per_ip "::1" issued met ip_let_through;
  client_allowed =
      limit_rate-IsAllowed js quiet config 1 exchange_per_client "kis-django" met _
        client_let_through;
  signed =
      authenticate-IsSigned js quiet config 2 exchange_url none code_request.headers
        (some (exchange_failure exchange_failed code_request none "signature_invalid")) counted _
        genuine;
  after_issue = omega arith;
  in_time = omega arith;
  not_redeemed = refl;
  row = refl;
  signs = refl;
}

recovery_completes_example :
    SentBack js as_is quiet config drawn "::1" "recovery_success"
      (("code", "abc") ∷ ("state", "s") ∷ [])
      "https://app/cb"
      "/statusstaterecovery_successclient_redirecthttps://app/cbcodeabcstates"
    × ((v' : World memory) × Returns
          (exchange js as_is rs256 quiet config "j1" code_request)
          issued
          "token"
          v')
recovery_completes_example =
    recovery_completes js as_is rs256 quiet quiet config drawn "::1" 4 "g1" row.identity session
      "sid" start left _ "j1" code_request issued "token"
      (record { ordered = λ j k h. omega arith; untouched = λ k t w. refl }) sent_back refl
      redemption
