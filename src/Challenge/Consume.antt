-- ===== src/Challenge/Consume.antt =====
-- CONSUME_SCRIPT of src/redis/challenge-store.ts hands out what the key held, and empties it.
use kisauth.Base.{ℕ, ◌≤◌, String, none, ◌≡◌, arith, inl, inr, Option-cases, eq_refl}
use kisauth.Redis.{Redis}
use kisauth.Challenge.{consume_script}

module _ (r : Redis) where
  open r use {State, get, get-del, get_earlier}

  -- What is gone stays gone.
  pub get_later :
      (t t' : ℕ) (k : String) (σ : State) → t ≤ t' → get t k σ ≡ none → get t' k σ ≡ none
  get_later t t' k σ h missing = elim (Option-cases (get t' k σ)) [
    | inl e ↦ e
    | inr (v, e) ↦ ground (arith, get_earlier t t' k σ v h e)
  ]

  pub consume_script_reply :
      (now : ℕ) (k : String) (σ : State) → (consume_script r now k σ).0 ≡ get now k σ
  consume_script_reply now k σ = ground arith

  pub consume_script_gone :
      (now t : ℕ) (k : String) (σ : State) → now ≤ t → get t k (consume_script r now k σ).1 ≡ none
  consume_script_gone now t k σ h =
      ground (arith, get_later now t k σ h, get-del t k k σ, eq_refl k)

  pub consume_script_missing :
      (now : ℕ) (k : String) (σ : State) → get now k σ ≡ none → (consume_script r now k σ).1 ≡ σ
  consume_script_missing now k σ missing = ground arith
