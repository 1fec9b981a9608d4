-- ===== src/Tests/Traffic.antt =====
-- Runs of Redis commands on the store in memory.
use kisauth.Base.{◌+◌, ◌*◌, [], ◌∷◌, ◌≡◌, refl, arith, inl, inr, none, false}
use kisauth.Records.{AuthorizationCodePayload, RegistrationTicketPayload, code}
use kisauth.Redis.Memory.{memory, nothing}
use kisauth.Challenge.{
  issue_authorization_code, consume_authorization_code, consume_registration_ticket,
}
use kisauth.RateLimit.{check}
use kisauth.Traffic.{redeem_code, redeem_ticket, hit, key_of, step}
use kisauth.Traffic.Trace.{Trace, run}
use kisauth.Traffic.Coupon.{authorization, first_redemption}
use kisauth.Traffic.SingleUse.{wins, in_time, code_single_use}
use kisauth.Traffic.Quota.{hits, results, verdicts, window_exact}
use kisauth.Traffic.Refined.{run_refines, answers, view}
use kisauth.Traffic.Desk.{replies, serve_all, SameFrom}

abbrev pub payload : AuthorizationCodePayload
payload = record {
  purpose = "recovery";
  client_id = "kis-django";
  kis_user_id = "u1";
  auth_identity_id = "i1";
  redirect_uri = "https://app/cb";
}

abbrev pub new_account : RegistrationTicketPayload
new_account = record {
  client_id = "kis-django";
  purpose = "registration";
  provider = "google";
  provider_subject = "g1";
  provider_email = none;
  provider_email_verified = false;
  partner_slug = none;
  redirect_uri = "https://app/cb";
}

-- Two requests race for the code, and another takes a ticket of the same text.
abbrev race : Trace
race =
    (2, redeem_ticket "abc")
    ∷ (5, redeem_code "abc")
    ∷ (5, hit "exchange_ip" "::1" 60 60)
    ∷ (6, redeem_code "abc")
    ∷ []

-- The winner is the first.
race_run :
    wins memory authorization "abc" race
      (issue_authorization_code memory 0 "abc" payload 60 nothing).1
    ≡ code payload ∷ []
unfolding wins step issue_authorization_code consume_authorization_code consume_registration_ticket
    check
race_run = refl

code_single_use_example :
    wins memory authorization "abc" race
      (issue_authorization_code memory 0 "abc" payload 60 nothing).1
    ≡ in_time (first_redemption authorization "abc" race) (0 + 60 * 1000) (code payload)
code_single_use_example =
    code_single_use memory "abc" payload race 0 60 nothing (omega arith)
      (refl, (refl, (refl, (refl, tt))))

run_refines_example :
    (answers memory race (issue_authorization_code memory 0 "abc" payload 60 nothing).1
      ≡ replies race (view memory (issue_authorization_code memory 0 "abc" payload 60 nothing).1))
    × SameFrom 6
        (view memory
          (run memory race (issue_authorization_code memory 0 "abc" payload 60 nothing).1))
        (serve_all race
          (view memory (issue_authorization_code memory 0 "abc" payload 60 nothing).1))
run_refines_example =
    run_refines memory race 0 (issue_authorization_code memory 0 "abc" payload 60 nothing).1
      (omega arith, (omega arith, (omega arith, (omega arith, tt))))

abbrev flood : Trace
flood =
    (10, hit "authorize" "::1" 2 60)
    ∷ (11, redeem_code "abc")
    ∷ (12, hit "authorize" "::2" 2 60)
    ∷ (59999, hit "authorize" "::1" 2 60)
    ∷ []

window_exact_example :
    results memory "authorize" "::1" 2 60 ((0, hit "authorize" "::1" 2 60) ∷ flood) nothing
    ≡ verdicts 2 0 3
unfolding hits key_of
window_exact_example =
    window_exact memory "authorize" "::1" 2 60 0 flood nothing refl (omega arith) (omega arith)
      (inr refl, (inl refl, (inl refl, (inr refl, tt)))) (omega arith)
