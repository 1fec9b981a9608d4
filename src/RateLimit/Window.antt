-- ===== src/RateLimit/Window.antt =====
-- The fixed window of src/security/rate-limit.ts: what one hit does to its key and to the others.
use kisauth.Base.{
  ℕ, suc, ◌+◌, ◌*◌, ◌≤◌, ◌<◌, false, String, none, some, ◌≡◌, ◌∙◌, arith, ◌==◌, ltb, str_eq,
  eq_refl, if◌then◌else◌, inl, inr, Option-cases,
}
use kisauth.Records.{number}
use kisauth.Redis.{Redis, next_count, max_counter}
use kisauth.RateLimit.{incr_script}

module _ (r : Redis) where
  open r use {State, get, incr, expire, incr_count, get-incr, get-expire}

  incr_of_next :
      (now : ℕ) (k : String) (σ : State) (n : ℕ)
      → next_count (get now k σ) ≡ some n
      → (σ' : State) × (incr now k σ ≡ some (n, σ'))
  incr_of_next now k σ n e = elim (Option-cases (incr now k σ)) [
    | inl failed ↦ ground (arith, incr_count now k σ)
    | inr ((m, σ'), hit) ↦ (σ', ground (arith, incr_count now k σ))
  ]

  abbrev opened : ℕ → String → ℕ → ℕ → State → State
  opened now k w n σ = if n == 1 then expire now k w σ else σ

  get-opened :
      (now t : ℕ) (k j : String) (w n : ℕ) (σ : State)
      → now ≤ t
      → str_eq k j ≡ false
      → get t j (opened now k w n σ) ≡ get t j σ
  get-opened now t k j w n σ h e = ground (arith, get-expire now t k j w σ)

  pub get-incr_script :
      (now t : ℕ) (k j : String) (w n : ℕ) (σ σ' : State)
      → now ≤ t
      → str_eq k j ≡ false
      → incr_script r now k w σ ≡ some (n, σ')
      → get t j σ' ≡ get t j σ
  unfolding incr_script
  get-incr_script now t k j w n σ σ' h e hit = elim (Option-cases (incr now k σ)) [
    | inl failed ↦ ground arith
    | inr ((m, σ₁), counted) ↦
        ground (arith, get-opened now t k j w m σ₁ h e, get-incr now t k j σ σ₁ m counted h)
  ]

  -- From a time on, a key holds a count until its deadline and is gone after.
  pub record Counts (k : String) (σ : State) (from deadline n : ℕ) : Type 0 where
    pub at : (t : ℕ) → from ≤ t → get t k σ ≡ (if ltb t deadline then some (number n) else none)

  Counts-first :
      (now : ℕ) (k : String) (w : ℕ) (σ₁ σ : State)
      → get now k σ ≡ none
      → incr now k σ ≡ some (1, σ₁)
      → Counts k (expire now k w σ₁) now (now + w * 1000) 1
  Counts-first now k w σ₁ σ missing hit = record {
    at = λ t h. ground (
      arith,
      get-expire now t k k w σ₁ h,
      get-incr now now k k σ σ₁ 1 hit (omega arith),
      eq_refl k,
    );
  }

  -- The first hit of a window opens it.
  pub incr_script_first :
      (now : ℕ) (k : String) (w : ℕ) (σ : State)
      → get now k σ ≡ none
      → (σ' : State) × (incr_script r now k w σ ≡ some (1, σ')) × Counts k σ' now (now + w * 1000) 1
  unfolding incr_script
  incr_script_first now k w σ missing =
      let (σ₁, hit) = incr_of_next now k σ 1 (rw missing) in
      (expire now k w σ₁, rw hit, Counts-first now k w σ₁ σ missing hit)

  Counts-next :
      (now : ℕ) (k : String) (σ₁ σ : State) (t d n : ℕ)
      → Counts k σ t d n
      → t ≤ now
      → now < d
      → incr now k σ ≡ some (suc n, σ₁)
      → Counts k σ₁ now d (suc n)
  Counts-next now k σ₁ σ t d n c h below hit = record {
    at = λ t' h'. ground (
      arith,
      get-incr now t' k k σ σ₁ (suc n) hit h',
      c.at now h,
      c.at t' (omega arith),
      eq_refl k,
    );
  }

  -- Every other hit counts one more, and leaves the deadline.
  pub incr_script_next :
      (now : ℕ) (k : String) (w : ℕ) (σ : State) (t d n : ℕ)
      → Counts k σ t d n
      → t ≤ now
      → now < d
      → 0 < n
      → n < max_counter
      → (σ' : State) × (incr_script r now k w σ ≡ some (suc n, σ')) × Counts k σ' now d (suc n)
  unfolding incr_script
  incr_script_next now k w σ t d n c h below some_hits room =
      let (σ₁, hit) = incr_of_next now k σ (suc n) (ground (arith, c.at now h)) in
      (σ₁, rw hit (ground arith), Counts-next now k σ₁ σ t d n c h below hit)

  pub Counts-frame :
      (k : String) (σ σ' : State) (t now d n : ℕ)
      → Counts k σ t d n
      → t ≤ now
      → ((t' : ℕ) → now ≤ t' → get t' k σ' ≡ get t' k σ)
      → Counts k σ' now d n
  Counts-frame k σ σ' t now d n c h same = record {
    at = λ t' h'. same t' h' ∙ c.at t' (omega arith);
  }
