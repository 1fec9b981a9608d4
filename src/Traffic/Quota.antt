-- ===== src/Traffic/Quota.antt =====
-- A rate limit holds however its hits interleave with other commands
-- (src/security/rate-limit.ts).
use kisauth.Base.{
  ℕ, zero, suc, ◌+◌, ◌*◌, ◌≤◌, ◌<◌, false, String, none, some, List, [], ◌∷◌, ◌++◌, ◌≡◌, leb,
  str_eq, if◌then◌else◌, ◌⊎◌, All, eq_refl, inl, inr, arith, refl,
}
use kisauth.Redis.{Redis, max_counter}
use kisauth.RateLimit.{RateLimitResult, limit_key, check}
use kisauth.RateLimit.Window.{Counts, incr_script_first, incr_script_next, Counts-frame}
use kisauth.Traffic.{hit, Reply, counted, key_of, step, step_frame}
use kisauth.Traffic.Trace.{Trace, InOrder}

-- The results that a reply carries.
abbrev pub result_of : Reply → List RateLimitResult
result_of (counted (some result)) = result ∷ []
result_of _ = []

-- The results that `amount` hits get, of which `n` have gone before.
abbrev pub verdicts : (limit n amount : ℕ) → List RateLimitResult
verdicts limit n zero = []
verdicts limit n (suc amount) =
    record { allowed = leb (suc n) limit; count = suc n; limit = limit }
    ∷ verdicts limit (suc n) amount

module _ (r : Redis) (scope identifier : String) (limit window : ℕ) where
  open r use {State, get}

  abbrev pub key : String
  key = limit_key scope identifier

  -- The commands on the key are hits under this limit.
  abbrev pub IsMetered : Trace → Type 0
  IsMetered =
      All (λ e. (str_eq (key_of e.1) key ≡ false) ⊎ (e.1 ≡ hit scope identifier limit window))

  abbrev pub Before : ℕ → Trace → Type 0
  Before deadline = All (λ e. e.0 < deadline)

  -- How many hits a run has on the key.
  unfoldable pub hits : Trace → ℕ
  hits [] = 0
  hits ((now, cmd) ∷ rest) =
      let more = hits rest in if str_eq (key_of cmd) key then suc more else more

  -- The results of the hits on the key, in order.
  unfoldable pub results : Trace → State → List RateLimitResult
  results [] σ = []
  results ((now, cmd) ∷ rest) σ =
      let (reply, σ') = step r now cmd σ in
      let later = results rest σ' in
      if str_eq (key_of cmd) key then result_of reply ++ later else later

  hit_next :
      (now : ℕ) (σ : State) (t d n : ℕ)
      → Counts r key σ t d n
      → t ≤ now
      → now < d
      → 0 < n
      → n < max_counter
      → (σ' : State) × (step r now (hit scope identifier limit window) σ ≡ (
        counted (some (record { allowed = leb (suc n) limit; count = suc n; limit = limit })),
        σ',
      ))
        × Counts r key σ' now d (suc n)
  unfolding step check
  hit_next now σ t d n c h below some_hits room =
      let (σ', passed, c') = incr_script_next r now key window σ t d n c h below some_hits room in
      (σ', rw passed, c')

  hit_first :
      (now : ℕ) (σ : State)
      → get now key σ ≡ none
      → (σ' : State) × (step r now (hit scope identifier limit window) σ
          ≡ (counted (some (record { allowed = leb 1 limit; count = 1; limit = limit })), σ'))
        × Counts r key σ' now (now + window * 1000) 1
  unfolding step check
  hit_first now σ missing =
      let (σ', passed, c') = incr_script_first r now key window σ missing in (σ', rw passed, c')

  results-hit :
      (now : ℕ) (rest : Trace) (σ σ' : State) (result : RateLimitResult)
      → step r now (hit scope identifier limit window) σ ≡ (counted (some result), σ')
      → results ((now, hit scope identifier limit window) ∷ rest) σ ≡ result ∷ results rest σ'
  unfolding results key_of
  results-hit now rest σ σ' result stepped = rw (eq_refl key, stepped)

  hits-hit :
      (now : ℕ) (rest : Trace)
      → hits ((now, hit scope identifier limit window) ∷ rest) ≡ suc (hits rest)
  unfolding hits key_of
  hits-hit now rest = rw (eq_refl key)

  results_within :
      (trace : Trace) (σ : State) (t d n : ℕ)
      → Counts r key σ t d n
      → InOrder t trace
      → Before d trace
      → IsMetered trace
      → 0 < n
      → n + hits trace ≤ max_counter
      → results trace σ ≡ verdicts limit n (hits trace)
  unfolding results hits
  results_within [] σ t d n c o b m some_hits room = refl
  results_within ((now, cmd) ∷ rest) σ t d n c (h, o) (below, b) (inl other, m) some_hits room =
      rw other (
        results_within rest (step r now cmd σ).1 now d n
          (Counts-frame r key σ (step r now cmd σ).1 t now d n c h
            (λ t' h'. step_frame r now t' cmd σ key h' other))
          o b m some_hits (ground arith))
  results_within ((now, cmd) ∷ rest) σ t d n c (h, o) (below, b) (inr this, m) some_hits room =
      let enough : n + suc (hits rest) ≤ max_counter = rw (this, hits-hit now rest) at room in
      let (σ', stepped, c') = hit_next now σ t d n c h below some_hits (omega arith) in
      rw (
        this,
        hits-hit now rest,
        results-hit now rest σ σ' _ stepped,
        results_within rest σ' now d (suc n) c' o b m (omega arith) (omega arith),
      )

  -- In a window that a hit opens on a missing key, the n-th hit is counted n and allowed exactly
  -- if n is at most the limit, whatever other commands run in between, if all run in the order of
  -- their times and before the window ends, every hit on the key has the same limit and window, and
  -- the hits do not exceed the largest number that Redis counts to.
  pub window_exact :
      (now : ℕ) (rest : Trace) (σ : State)
      → get now key σ ≡ none
      → InOrder now rest
      → Before (now + window * 1000) rest
      → IsMetered rest
      → hits rest < max_counter
      → results ((now, hit scope identifier limit window) ∷ rest) σ
        ≡ verdicts limit 0 (suc (hits rest))
  window_exact now rest σ missing o b m room =
      let (σ', stepped, c) = hit_first now σ missing in
      rw (
        results-hit now rest σ σ' _ stepped,
        results_within rest σ' now (now + window * 1000) 1 c o b m (omega arith) (omega arith),
      )
