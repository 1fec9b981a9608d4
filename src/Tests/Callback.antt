-- ===== src/Tests/Callback.antt =====
-- A callback from Google, and its id token, on the state in memory.
use kisauth.Base.{String, Option, some, none, List, ◌≡◌, ◌↔◌, refl, true, arith}
use kisauth.Json.{Json, str, bool, obj, field, end}
use kisauth.Redis.Memory.{memory, nothing}
use kisauth.RateLimit.{check, rate_limits}
use kisauth.Session.{create, get_session, delete}
use kisauth.Challenge.{create_challenge, get_challenge, issue_authorization_code}
use kisauth.Identity.{touch_last_authenticated, find_by_provider_subject}
use kisauth.Service.{World, ◌>>=◌, counted_within, limit_rate}
use kisauth.Service.Laws.{Returns}
use kisauth.Google.{
  Response, google_issuers, exchange_code_for_id_token, verify_google, verify_oidc_id_token,
  read_claims,
}
use kisauth.Google.IdToken.{Vouched, id_token_accepted_iff}
use kisauth.Oauth.{status_redirect_url, location, redirect, delete_session}
use kisauth.Oauth.Outcome.{
  VerifiedProviderIdentity, confirm, new_challenge, find_challenge, mark_used, issue_code,
  confirm_and_redirect,
}
use kisauth.Oauth.Finish.{touch, finalize_returning_user}
use kisauth.Oauth.Callback.{
  CallbackRequest, session_of, find_google_identity, finish_known, search_and_finish, finish,
  ask_google, go_on, answer, answer_session, handle_callback,
}
use kisauth.Oauth.Answered.{Answered, callback-Answered}
use kisauth.Tests.Runtime.{js}
use kisauth.Tests.Exchange.{as_is, config, quiet, world}
use kisauth.Tests.Oauth.{randoms, session}
use kisauth.Oauth.Started.{Started}
use kisauth.Oauth.Consumed.{callback_consumes}

abbrev pub claims : Json
claims =
    obj (field "nonce" (str "no") (field "sub" (str "g1") (field "email_verified" (bool true) end)))

abbrev jose : String → List String → String → Option Json
jose token issuers audience = some claims

abbrev google : String → List (String × String) → Option Response
google url form = some (record { is_ok = true; body = some (obj (field "id_token" (str "t") end)) })

abbrev vouched : VerifiedProviderIdentity
vouched = record { sub = "g1"; email = none; email_verified = true }

id_token_accepted_iff_example :
    (verify_oidc_id_token jose "t" google_issuers "gc" "no" ≡ some vouched)
    ↔ Vouched jose "t" google_issuers "gc" "no" vouched
id_token_accepted_iff_example = id_token_accepted_iff jose "t" google_issuers "gc" "no" vouched

abbrev callback : CallbackRequest
callback = record {
  cookie = some "sid";
  code = some "gcode";
  state = some "st";
  error = none;
  ip = "::1";
}

abbrev waiting : World memory
waiting = world (create memory 1000 "sid" (record session { code_verifier = some "v" }) nothing).1

answered :
    Returns
      (handle_callback js as_is google jose quiet config randoms callback)
      waiting
      "/statusstaterecovery_successclient_redirecthttps://app/cbcodecodestates"
      (handle_callback js as_is google jose quiet config randoms callback waiting).1
unfolding handle_callback limit_rate counted_within check rate_limits session_of get_session create
    answer_session answer go_on ask_google exchange_code_for_id_token verify_google
    verify_oidc_id_token read_claims finish search_and_finish find_google_identity finish_known
    find_by_provider_subject finalize_returning_user touch touch_last_authenticated new_challenge
    delete_session delete confirm_and_redirect find_challenge get_challenge create_challenge confirm
    mark_used issue_code issue_authorization_code redirect location status_redirect_url ◌>>=◌
answered = refl

callback-Answered_example :
    Answered js as_is google jose quiet config randoms callback
      "/statusstaterecovery_successclient_redirecthttps://app/cbcodecodestates"
      (handle_callback js as_is google jose quiet config randoms callback waiting).1
callback-Answered_example =
    callback-Answered js as_is google jose quiet config randoms callback waiting _ _ answered

abbrev google_location : String
google_location =
    "https://accounts.google.com/o/oauth2/v2/authclient_idgcredirect_urihttps://kisauth/oauth/google/callbackresponse_typecodescopeopenid email profilestatestnoncenocode_challengev2code_challenge_methodS256"

callback_consumes_example :
    get_session memory 3000 "sid"
      (handle_callback js as_is google jose quiet config randoms callback waiting).1.redis
    ≡ none
callback_consumes_example =
    callback_consumes js as_is google jose quiet config randoms callback "sid" (λ k w gone. gone)
      waiting _ _ 3000 refl (λ j h. omega arith) answered
