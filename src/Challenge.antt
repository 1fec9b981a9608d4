-- ===== src/Challenge.antt =====
-- src/redis/challenge-store.ts: challenges, authorization codes and registration tickets in Redis.
-- Each Redis command happens at a time of its own; a `gap` is what other clients of Redis do while
-- the caller awaits its next command. Random text is an argument.
pub mod Consume
pub mod Attempts
use kisauth.Base.{ℕ, ◌+◌, Bool, true, false, String, Option, none, some, ◌==◌, if◌then◌else◌}
use kisauth.Base.Int.{ℤ, pos, negsuc}
use kisauth.Base.Texts.{◌++◌}
use kisauth.Records.{
  ChallengeRecord, AuthorizationCodePayload, RegistrationTicketPayload, Stored, challenge, code,
  ticket, as_challenge, as_code, as_ticket, ◌>>=◌,
}
use kisauth.Keys.{challenge_prefix, code_prefix, reg_ticket_prefix}
use kisauth.Redis.{Redis}

-- The reply of TTL past the test `ttl <= 0`.
abbrev pub positive : ℤ → Option ℕ
positive (pos n) = if n == 0 then none else some n
positive (negsuc n) = none

module _ (r : Redis) where
  open r use {State, get, set_ex, ttl, del}

  unfoldable pub create_challenge : ℕ → String → ChallengeRecord → ℕ → State → State
  create_challenge now id record' ttl_seconds =
      set_ex now (challenge_prefix ++ id) (challenge record') ttl_seconds

  unfoldable pub get_challenge : ℕ → String → State → Option ChallengeRecord
  get_challenge now id σ = do raw ← get now (challenge_prefix ++ id) σ; as_challenge raw

  -- TTL, and SET with the lifetime that it gave unless the key has expired by then. These are two
  -- commands, with a gap before each.
  unfoldable pub resave :
      (gap₁ gap₂ : State → State) (t₂ t₃ : ℕ) → String → ChallengeRecord → State → Bool × State
  resave gap₁ gap₂ t₂ t₃ id record' σ =
      let asked = gap₁ σ in
      elim (positive (ttl t₂ (challenge_prefix ++ id) asked)) [
        | none ↦ (false, asked)
        | some seconds ↦
            (true, set_ex t₃ (challenge_prefix ++ id) (challenge record') seconds (gap₂ asked))
      ]

  unfoldable pub increment_attempts :
      (gap₁ gap₂ : State → State) (t₁ t₂ t₃ : ℕ) → String → State → Option ℕ × State
  unfolding get_challenge resave
  increment_attempts gap₁ gap₂ t₁ t₂ t₃ id σ = elim (get_challenge t₁ id σ) [
    | none ↦ (none, σ)
    | some found ↦
        let record' = record found { attempt_count = found.attempt_count + 1 } in
        let (saved, σ') = resave gap₁ gap₂ t₂ t₃ id record' σ in
        (if saved then some record'.attempt_count else none, σ')
  ]

  unfoldable pub mark_challenge_used :
      (gap₁ gap₂ : State → State) (t₁ t₂ t₃ : ℕ) → String → State → State
  unfolding get_challenge resave
  mark_challenge_used gap₁ gap₂ t₁ t₂ t₃ id σ = elim (get_challenge t₁ id σ) [
    | none ↦ σ
    | some found ↦ (resave gap₁ gap₂ t₂ t₃ id (record found { used = true }) σ).1
  ]

  unfoldable pub delete_challenge : String → State → State
  delete_challenge id = del (challenge_prefix ++ id)

  -- `random` is base64url(randomBytes(32)).
  unfoldable pub issue_authorization_code :
      ℕ → (random : String) → AuthorizationCodePayload → ℕ → State → String × State
  issue_authorization_code now random payload ttl_seconds σ =
      (random, set_ex now (code_prefix ++ random) (code payload) ttl_seconds σ)

  -- CONSUME_SCRIPT, which Redis runs as one command.
  abbrev pub consume_script : ℕ → String → State → Option Stored × State
  consume_script now key σ =
      let value = get now key σ in elim value [ none ↦ (none, σ) | some v ↦ (some v, del key σ) ]

  unfoldable pub consume_authorization_code :
      ℕ → String → State → Option AuthorizationCodePayload × State
  consume_authorization_code now c σ =
      let (raw, σ') = consume_script now (code_prefix ++ c) σ in (raw >>= as_code, σ')

  unfoldable pub issue_registration_ticket :
      ℕ → (random : String) → RegistrationTicketPayload → ℕ → State → String × State
  issue_registration_ticket now random payload ttl_seconds σ =
      (random, set_ex now (reg_ticket_prefix ++ random) (ticket payload) ttl_seconds σ)

  unfoldable pub consume_registration_ticket :
      ℕ → String → State → Option RegistrationTicketPayload × State
  consume_registration_ticket now c σ =
      let (raw, σ') = consume_script now (reg_ticket_prefix ++ c) σ in (raw >>= as_ticket, σ')
