-- ===== src/Traffic/Refined.antt =====
-- The one Redis behind src/redis/challenge-store.ts, src/oauth/oauth-session.store.ts,
-- src/security/rate-limit.ts and src/security/link-ticket.ts behaves as four dictionaries.
use kisauth.Base.{
  ℕ, ◌≤◌, true, String, List, [], ◌∷◌, ◌≡◌, refl, ap, sym, ◌∙◌, arith, Bool-cases, inl, inr,
  if◌then◌else◌,
}
use kisauth.Base.Texts.{◌++◌}
use kisauth.Records.{as_challenge, as_code, as_ticket, as_session, ◌>>=◌}
use kisauth.Keys.{Space, challenges, codes, tickets, sessions, limits, nonces, prefix}
use kisauth.Redis.{Redis}
use kisauth.Session.{get_session}
use kisauth.Challenge.{get_challenge, consume_authorization_code, consume_registration_ticket}
use kisauth.Challenge.Consume.{consume_script_reply}
use kisauth.Traffic.{
  Command, set_challenge, drop_challenge, issue_code, redeem_code, issue_ticket, redeem_ticket,
  set_session, drop_session, hit, claim_nonce, Reply, redeemed, ticketed, key_of, step,
}
use kisauth.Traffic.Trace.{Trace, InOrder, run}
use kisauth.Traffic.Shown.{Shows, challenges_step, codes_step, tickets_step, sessions_step}
use kisauth.Traffic.Desk.{Desk, SameFrom, serve, at_desk, serve_all, replies}

-- The kind of record that a command may change, and what follows the prefix in its key.
abbrev space_of : Command → Space
space_of (set_challenge _ _ _) = challenges
space_of (drop_challenge _) = challenges
space_of (issue_code _ _ _) = codes
space_of (redeem_code _) = codes
space_of (issue_ticket _ _ _) = tickets
space_of (redeem_ticket _) = tickets
space_of (set_session _ _ _) = sessions
space_of (drop_session _) = sessions
space_of (hit _ _ _ _) = limits
space_of (claim_nonce _ _) = nonces

abbrev name_of : Command → String
name_of (set_challenge id _ _) = id
name_of (drop_challenge id) = id
name_of (issue_code c _ _) = c
name_of (redeem_code c) = c
name_of (issue_ticket c _ _) = c
name_of (redeem_ticket c) = c
name_of (set_session id _ _) = id
name_of (drop_session id) = id
name_of (hit scope identifier _ _) = scope ++ (":" ++ identifier)
name_of (claim_nonce nonce _) = nonce

key_of-prefix : (c : Command) → key_of c ≡ prefix (space_of c) ++ name_of c
unfolding key_of
key_of-prefix (set_challenge _ _ _) = refl
key_of-prefix (drop_challenge _) = refl
key_of-prefix (issue_code _ _ _) = refl
key_of-prefix (redeem_code _) = refl
key_of-prefix (issue_ticket _ _ _) = refl
key_of-prefix (redeem_ticket _) = refl
key_of-prefix (set_session _ _ _) = refl
key_of-prefix (drop_session _) = refl
key_of-prefix (hit _ _ _ _) = refl
key_of-prefix (claim_nonce _ _) = refl

-- The time of the last command.
abbrev pub ends : ℕ → Trace → ℕ
ends t [] = t
ends t ((now, _) ∷ rest) = ends now rest

module _ (r : Redis) where
  open r use {State, get}

  -- From a time on, Redis reads as a desk.
  record Implements (t₀ : ℕ) (σ : State) (d : Desk) : Type 0 where
    in_challenges : Shows r challenges as_challenge t₀ d.challenges σ
    in_codes : Shows r codes as_code t₀ d.codes σ
    in_tickets : Shows r tickets as_ticket t₀ d.tickets σ
    in_sessions : Shows r sessions as_session t₀ d.sessions σ

  weaken-Implements :
      (t₀ t₁ : ℕ) (σ : State) (d : Desk) → t₀ ≤ t₁ → Implements t₀ σ d → Implements t₁ σ d
  weaken-Implements t₀ t₁ σ d le i = record {
    in_challenges = λ t name h. i.in_challenges t name (omega arith);
    in_codes = λ t name h. i.in_codes t name (omega arith);
    in_tickets = λ t name h. i.in_tickets t name (omega arith);
    in_sessions = λ t name h. i.in_sessions t name (omega arith);
  }

  step-Implements :
      (now : ℕ) (cmd : Command) (σ : State) (d : Desk)
      → Implements now σ d
      → Implements now (step r now cmd σ).1 (serve now cmd d).1
  step-Implements now cmd σ d i = record {
    in_challenges = challenges_step r now cmd σ d i.in_challenges;
    in_codes = codes_step r now cmd σ d i.in_codes;
    in_tickets = tickets_step r now cmd σ d i.in_tickets;
    in_sessions = sessions_step r now cmd σ d i.in_sessions;
  }

  step_reply :
      (now : ℕ) (cmd : Command) (σ : State) (d : Desk)
      → Implements now σ d
      → at_desk cmd ≡ true
      → (step r now cmd σ).0 ≡ (serve now cmd d).0
  unfolding step consume_authorization_code consume_registration_ticket
  step_reply now (redeem_code c) σ d i e = ap redeemed (
      ap (λ o. o >>= as_code) (consume_script_reply r now (prefix codes ++ c) σ)
      ∙ i.in_codes now c (omega arith))
  step_reply now (redeem_ticket c) σ d i e = ap ticketed (
      ap (λ o. o >>= as_ticket) (consume_script_reply r now (prefix tickets ++ c) σ)
      ∙ i.in_tickets now c (omega arith))
  step_reply now (hit _ _ _ _) σ d i e = ground arith
  step_reply now (claim_nonce _ _) σ d i e = ground arith
  step_reply now other σ d i e = refl

  -- The replies of Redis to the same commands.
  unfoldable pub answers : Trace → State → List Reply
  answers [] σ = []
  answers ((now, cmd) ∷ rest) σ =
      let later = answers rest (step r now cmd σ).1 in
      if at_desk cmd then (step r now cmd σ).0 ∷ later else later

  run-Implements :
      (trace : Trace) (t₀ : ℕ) (σ : State) (d : Desk)
      → Implements t₀ σ d
      → InOrder t₀ trace
      → Implements (ends t₀ trace) (run r trace σ) (serve_all trace d)
  unfolding run
  run-Implements [] t₀ σ d i ordered = i
  run-Implements ((now, cmd) ∷ rest) t₀ σ d i (le, ordered) =
      run-Implements rest now _ _ (step-Implements now cmd σ d (weaken-Implements t₀ now σ d le i))
        ordered

  answers-Implements :
      (trace : Trace) (t₀ : ℕ) (σ : State) (d : Desk)
      → Implements t₀ σ d
      → InOrder t₀ trace
      → answers trace σ ≡ replies trace d
  unfolding answers
  answers-Implements [] t₀ σ d i ordered = refl
  answers-Implements ((now, cmd) ∷ rest) t₀ σ d i (le, ordered) =
      let here = weaken-Implements t₀ now σ d le i in
      let later = answers-Implements rest now _ _ (step-Implements now cmd σ d here) ordered in
      elim (Bool-cases (at_desk cmd)) [
        | inl concerns ↦ rw (concerns, step_reply now cmd σ d here concerns, later)
        | inr not ↦ rw (not, later)
      ]

  -- Redis, read by the operations of the stores.
  abbrev pub view : State → Desk
  view σ = record {
    challenges = λ t id. get_challenge r t id σ;
    codes = λ t c. (consume_authorization_code r t c σ).0;
    tickets = λ t c. (consume_registration_ticket r t c σ).0;
    sessions = λ t id. get_session r t id σ;
  }

  read_code :
      (t : ℕ) (c : String) (σ : State)
      → (get t (prefix codes ++ c) σ >>= as_code) ≡ (consume_authorization_code r t c σ).0
  unfolding consume_authorization_code
  read_code t c σ = ap (λ o. o >>= as_code) (sym (consume_script_reply r t (prefix codes ++ c) σ))

  read_ticket :
      (t : ℕ) (c : String) (σ : State)
      → (get t (prefix tickets ++ c) σ >>= as_ticket) ≡ (consume_registration_ticket r t c σ).0
  unfolding consume_registration_ticket
  read_ticket t c σ =
      ap (λ o. o >>= as_ticket) (sym (consume_script_reply r t (prefix tickets ++ c) σ))

  view-Implements : (t₀ : ℕ) (σ : State) → Implements t₀ σ (view σ)
  unfolding get_challenge get_session
  view-Implements t₀ σ = record {
    in_challenges = λ t id h. refl;
    in_codes = λ t c h. read_code t c σ;
    in_tickets = λ t c h. read_ticket t c σ;
    in_sessions = λ t id h. refl;
  }

  Implements-SameFrom : (t₀ : ℕ) (σ : State) (d : Desk) → Implements t₀ σ d → SameFrom t₀ (view σ) d
  unfolding get_challenge get_session
  Implements-SameFrom t₀ σ d i = record {
    same_challenges = i.in_challenges;
    same_codes = λ t c h. sym (read_code t c σ) ∙ i.in_codes t c h;
    same_tickets = λ t c h. sym (read_ticket t c σ) ∙ i.in_tickets t c h;
    same_sessions = i.in_sessions;
  }

  -- Any run of commands on the one Redis refines a run on four dictionaries whose entries expire: the
  -- replies that concern these are the same, and from the last command on, what the stores read of
  -- challenges, codes, tickets and sessions is what the dictionaries have. The commands of the rate
  -- limiter and the link tickets in between change none of it.
  pub run_refines :
      (trace : Trace) (t₀ : ℕ) (σ : State)
      → InOrder t₀ trace
      → (answers trace σ ≡ replies trace (view σ))
        × SameFrom (ends t₀ trace) (view (run r trace σ)) (serve_all trace (view σ))
  run_refines trace t₀ σ ordered =
      let start = view-Implements t₀ σ in
      (
        answers-Implements trace t₀ σ (view σ) start ordered,
        Implements-SameFrom _ _ _ (run-Implements trace t₀ σ (view σ) start ordered),
      )
