-- ===== src/Traffic.antt =====
-- Every Redis command that changes a key, as the stores of src/redis/challenge-store.ts,
-- src/oauth/oauth-session.store.ts, src/security/rate-limit.ts and src/security/link-ticket.ts
-- send it. Redis runs commands one at a time, so any interleaving of any number of requests is a
-- list of these.
pub mod Trace
pub mod Coupon
pub mod SingleUse
pub mod Quota
pub mod Desk
pub mod Shown
pub mod Refined
use kisauth.Base.{
  ℕ, ◌≤◌, Bool, false, String, Option, none, some, ◌≡◌, arith, str_eq, inl, inr, Option-cases,
}
use kisauth.Base.Texts.{◌++◌}
use kisauth.Records.{
  ChallengeRecord, AuthorizationCodePayload, RegistrationTicketPayload, OAuthSession, challenge,
  code, ticket, session, number,
}
use kisauth.Keys.{challenge_prefix, code_prefix, reg_ticket_prefix, session_prefix, nonce_prefix}
use kisauth.Redis.{Redis}
use kisauth.Challenge.{
  create_challenge, delete_challenge, issue_authorization_code, consume_authorization_code,
  issue_registration_ticket, consume_registration_ticket,
}
use kisauth.Session
use kisauth.RateLimit.{RateLimitResult, limit_key, incr_script, check}
use kisauth.RateLimit.Window.{get-incr_script}

pub data Command : Type 0 where
  -- the SET of createChallenge, incrementAttempts and markChallengeUsed
  set_challenge : String → ChallengeRecord → ℕ → Command
  drop_challenge : String → Command
  issue_code : String → AuthorizationCodePayload → ℕ → Command
  redeem_code : String → Command
  issue_ticket : String → RegistrationTicketPayload → ℕ → Command
  redeem_ticket : String → Command
  -- the SET of create and update
  set_session : String → OAuthSession → ℕ → Command
  drop_session : String → Command
  hit : (scope identifier : String) → (limit window_seconds : ℕ) → Command
  claim_nonce : String → ℕ → Command

pub data Reply : Type 0 where
  done : Reply
  redeemed : Option AuthorizationCodePayload → Reply
  ticketed : Option RegistrationTicketPayload → Reply
  counted : Option RateLimitResult → Reply
  claimed : Bool → Reply

-- The key that a command may change.
unfoldable pub key_of : Command → String
key_of (set_challenge id _ _) = challenge_prefix ++ id
key_of (drop_challenge id) = challenge_prefix ++ id
key_of (issue_code c _ _) = code_prefix ++ c
key_of (redeem_code c) = code_prefix ++ c
key_of (issue_ticket c _ _) = reg_ticket_prefix ++ c
key_of (redeem_ticket c) = reg_ticket_prefix ++ c
key_of (set_session id _ _) = session_prefix ++ id
key_of (drop_session id) = session_prefix ++ id
key_of (hit scope identifier _ _) = limit_key scope identifier
key_of (claim_nonce nonce _) = nonce_prefix ++ nonce

module _ (r : Redis) where
  open r use {State, get, set_ex, set_nx, get-set_ex, get-del, set_nx_lem, get-incr, get-expire}

  abbrev counting : Option (RateLimitResult × State) → State → Reply × State
  counting none σ = (counted none, σ)
  counting (some (result, σ')) σ = (counted (some result), σ')

  unfoldable pub step : ℕ → Command → State → Reply × State
  step now (set_challenge id v s) σ = (done, create_challenge r now id v s σ)
  step now (drop_challenge id) σ = (done, delete_challenge r id σ)
  step now (issue_code c v s) σ = (done, (issue_authorization_code r now c v s σ).1)
  step now (redeem_code c) σ =
      let (found, σ') = consume_authorization_code r now c σ in (redeemed found, σ')
  step now (issue_ticket c v s) σ = (done, (issue_registration_ticket r now c v s σ).1)
  step now (redeem_ticket c) σ =
      let (found, σ') = consume_registration_ticket r now c σ in (ticketed found, σ')
  step now (set_session id v s) σ = (done, set_ex now (session_prefix ++ id) (session v) s σ)
  step now (drop_session id) σ = (done, Session.delete r id σ)
  step now (hit scope identifier limit window) σ =
      counting (check r now scope identifier limit window σ) σ
  step now (claim_nonce nonce s) σ =
      let (fresh, σ') = set_nx now (nonce_prefix ++ nonce) (number 1) s σ in (claimed fresh, σ')

  set_nx_frame :
      (now t : ℕ) (k : String) (s : ℕ) (σ : State) (j : String)
      → now ≤ t
      → str_eq k j ≡ false
      → get t j (set_nx now k (number 1) s σ).1 ≡ get t j σ
  set_nx_frame now t k s σ j h e =
      ground (arith, set_nx_lem now k (number 1) s σ, get-set_ex now t k j (number 1) s σ h)

  check_frame :
      (now t : ℕ) (scope identifier : String) (limit window : ℕ) (σ : State) (j : String)
      → now ≤ t
      → str_eq (limit_key scope identifier) j ≡ false
      → get t j (counting (check r now scope identifier limit window σ) σ).1 ≡ get t j σ
  unfolding check
  check_frame now t scope identifier limit window σ j h e =
      elim (Option-cases (incr_script r now (limit_key scope identifier) window σ)) [
        | inl failed ↦ rw failed
        | inr ((n, σ'), passed) ↦
            rw passed
              (get-incr_script r now t (limit_key scope identifier) j window n σ σ' h e passed)
      ]

  -- A command leaves every key but its own as it was.
  pub step_frame :
      (now t : ℕ) (c : Command) (σ : State) (j : String)
      → now ≤ t
      → str_eq (key_of c) j ≡ false
      → get t j (step now c σ).1 ≡ get t j σ
  unfolding step key_of create_challenge delete_challenge issue_authorization_code
      consume_authorization_code issue_registration_ticket consume_registration_ticket
      Session.delete
  step_frame now t (set_challenge id v s) σ j h e =
      ground (arith, get-set_ex now t (challenge_prefix ++ id) j (challenge v) s σ h)
  step_frame now t (drop_challenge id) σ j h e =
      ground (arith, get-del t (challenge_prefix ++ id) j σ)
  step_frame now t (issue_code c v s) σ j h e =
      ground (arith, get-set_ex now t (code_prefix ++ c) j (code v) s σ h)
  step_frame now t (redeem_code c) σ j h e = ground (arith, get-del t (code_prefix ++ c) j σ)
  step_frame now t (issue_ticket c v s) σ j h e =
      ground (arith, get-set_ex now t (reg_ticket_prefix ++ c) j (ticket v) s σ h)
  step_frame now t (redeem_ticket c) σ j h e =
      ground (arith, get-del t (reg_ticket_prefix ++ c) j σ)
  step_frame now t (set_session id v s) σ j h e =
      ground (arith, get-set_ex now t (session_prefix ++ id) j (session v) s σ h)
  step_frame now t (drop_session id) σ j h e = ground (arith, get-del t (session_prefix ++ id) j σ)
  step_frame now t (hit scope identifier limit window) σ j h e =
      check_frame now t scope identifier limit window σ j h e
  step_frame now t (claim_nonce nonce s) σ j h e =
      set_nx_frame now t (nonce_prefix ++ nonce) s σ j h e
