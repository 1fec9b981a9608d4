-- ===== src/Tests/Completed.antt =====
-- A request for an authorization code that passes the checks of admission, on the state in memory.
use kisauth.Base.{some, none, refl}
use kisauth.Redis.Memory.{memory}
use kisauth.RateLimit.{check, rate_limits, exchange_per_ip, exchange_per_client}
use kisauth.Challenge.{issue_authorization_code}
use kisauth.LinkTicket.{same_bytes}
use kisauth.Signing.{verify_internal_signature, outside_window}
use kisauth.Signing.Payload.{path_with_query, signature_payload, body_hash, body_text, sign}
use kisauth.Events.{exchange_failed}
use kisauth.Service.{World, ◌>>=◌, counted_within, limit_rate}
use kisauth.Service.Laws.{Returns}
use kisauth.Exchange.{
  verify_request, accept_signature, authenticate, limit_client, exchange_failure,
}
use kisauth.Exchange.Code.{exchange_url}
use kisauth.Exchange.Completed.{after_ip, after_client, after_signature}
use kisauth.Tests.Runtime.{js}
use kisauth.Tests.Exchange.{config, quiet, code_request, issued}

abbrev pub met : World memory
met = after_ip js quiet config exchange_per_ip code_request issued

abbrev pub counted : World memory
counted = after_client js quiet config exchange_per_ip exchange_per_client code_request issued

pub ip_let_through : Returns (limit_rate quiet 0 exchange_per_ip "::1") issued tt met
unfolding limit_rate counted_within check rate_limits ◌>>=◌ issue_authorization_code
ip_let_through = refl

pub client_let_through :
    Returns
      (limit_rate quiet 1 exchange_per_client "kis-django")
      met
      tt
      (limit_rate quiet 1 exchange_per_client "kis-django" met).1
unfolding limit_rate counted_within check rate_limits ◌>>=◌ issue_authorization_code
client_let_through = refl

pub genuine :
    Returns
      (authenticate js quiet config 2 exchange_url none code_request.headers
        (some (exchange_failure exchange_failed code_request none "signature_invalid")))
      counted
      tt
      (after_signature js quiet config exchange_url exchange_per_ip exchange_per_client
        exchange_failed code_request issued)
unfolding limit_rate limit_client counted_within check rate_limits authenticate verify_request
    accept_signature ◌>>=◌ verify_internal_signature path_with_query signature_payload body_hash
    body_text sign outside_window same_bytes issue_authorization_code
genuine = refl
