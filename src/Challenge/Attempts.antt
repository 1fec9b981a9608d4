-- ===== src/Challenge/Attempts.antt =====
-- What incrementAttempts of src/redis/challenge-store.ts leaves in Redis.
use kisauth.Base.{
  ℕ, ◌+◌, ◌*◌, ◌≤◌, true, String, some, ◌≡◌, arith, Option-cases, Bool-cases, inl, inr, sym,
  some_inj, eq_refl, ltb,
}
use kisauth.Base.Texts.{◌++◌}
use kisauth.Records.{ChallengeRecord, challenge}
use kisauth.Keys.{challenge_prefix}
use kisauth.Redis.{Redis}
use kisauth.Challenge.{positive, get_challenge, resave, increment_attempts}

module _ (r : Redis) where
  open r use {State, get, set_ex, ttl, get-set_ex}

  -- Whoever reads the challenge at a time reads this one or none.
  abbrev pub ReadsAs : (from : ℕ) → String → ChallengeRecord → State → Type 0
  ReadsAs from id c σ =
      (t : ℕ) (found : ChallengeRecord) → from ≤ t → get_challenge r t id σ ≡ some found → found ≡ c

  set_ex-ReadsAs :
      (now seconds : ℕ) (id : String) (c : ChallengeRecord) (σ : State)
      → ReadsAs now id c (set_ex now (challenge_prefix ++ id) (challenge c) seconds σ)
  unfolding get_challenge
  set_ex-ReadsAs now seconds id c σ t found later h =
      let key = challenge_prefix ++ id in
      let at_key = get-set_ex now t key key (challenge c) seconds σ later in
      elim (Bool-cases (ltb t (now + seconds * 1000))) [
        | inl live ↦ ground (arith, at_key, eq_refl key)
        | inr over ↦ ground (arith, at_key, eq_refl key)
      ]

  resave-ReadsAs :
      (gap₁ gap₂ : State → State) (t₂ t₃ : ℕ) (id : String) (c : ChallengeRecord) (σ : State)
      → (resave r gap₁ gap₂ t₂ t₃ id c σ).0 ≡ true
      → ReadsAs t₃ id c (resave r gap₁ gap₂ t₂ t₃ id c σ).1
  unfolding resave
  resave-ReadsAs gap₁ gap₂ t₂ t₃ id c σ saved t found later =
      elim (Option-cases (positive (ttl t₂ (challenge_prefix ++ id) (gap₁ σ)))) [
        | inl expired ↦ ground arith
        | inr (seconds, left) ↦
            rw (left, resave) (set_ex-ReadsAs t₃ seconds id c (gap₂ (gap₁ σ)) t found later)
      ]

  -- When incrementAttempts answers with a count, it is one more than the count of the challenge that
  -- it read, and from then on the challenge is read with this count and nothing else changed, or not
  -- at all, until another write; whatever other clients did between its commands is overwritten.
  pub increment_attempts-ReadsAs :
      (gap₁ gap₂ : State → State) (t₁ t₂ t₃ : ℕ) (id : String) (σ : State) (n : ℕ)
      → (increment_attempts r gap₁ gap₂ t₁ t₂ t₃ id σ).0 ≡ some n
      → (found : ChallengeRecord) × (get_challenge r t₁ id σ ≡ some found)
        × (n ≡ found.attempt_count + 1)
        × ReadsAs t₃ id
            (record found { attempt_count = n })
            (increment_attempts r gap₁ gap₂ t₁ t₂ t₃ id σ).1
  unfolding increment_attempts
  increment_attempts-ReadsAs gap₁ gap₂ t₁ t₂ t₃ id σ n h =
      elim (Option-cases (get_challenge r t₁ id σ)) [
        | inl missing ↦ ground arith
        | inr (found, read) ↦
            let c = record found { attempt_count = found.attempt_count + 1 } in
            elim (Bool-cases (resave r gap₁ gap₂ t₂ t₃ id c σ).0) [
              | inr expired ↦ cc (rw (read, expired, increment_attempts) at h)
              | inl saved ↦
                  let count : found.attempt_count + 1 ≡ n =
                    some_inj (rw (read, saved, increment_attempts) at h) in
                  (
                    found,
                    read,
                    sym count,
                    rw (read, sym count, increment_attempts)
                        (resave-ReadsAs gap₁ gap₂ t₂ t₃ id c σ saved),
                  )
            ]
      ]
