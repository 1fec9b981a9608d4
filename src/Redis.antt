-- ===== src/Redis.antt =====
-- The Redis server, which is not part of the repository: its commands as the program calls them
-- (src/redis/challenge-store.ts, src/oauth/oauth-session.store.ts, src/security/rate-limit.ts,
-- src/security/link-ticket.ts), with the documented behaviour as laws. Times are milliseconds.
pub mod Memory
use kisauth.Base.{
  ℕ, suc, ◌+◌, ◌*◌, ◌≤◌, Bool, true, false, String, Option, none, some, ◌≡◌, ltb, is_some, str_eq,
  if◌then◌else◌,
}
use kisauth.Base.Int.{ℤ, pos}
use kisauth.Records.{Stored, number, ◌>>=◌}

-- The largest number that INCR reaches.
abbrev pub max_counter : ℕ
max_counter = 9223372036854775807

-- What INCR replies for a key that holds this; `none` is an error reply.
abbrev pub next_count : Option Stored → Option ℕ
next_count none = some 1
next_count (some (number n)) = if ltb n max_counter then some (suc n) else none
next_count (some _) = none

abbrev pub while_live : Option Stored → Option Stored → Stored → Option Stored
while_live none later v = some v
while_live (some _) none v = none
while_live (some _) (some _) v = some v

pub record Redis : Type 1 where
  pub State : Type 0
  -- GET at a time
  pub get : ℕ → String → State → Option Stored
  -- SET key value EX seconds
  pub set_ex : ℕ → String → Stored → ℕ → State → State
  -- SET key value EX seconds NX: whether the reply is OK
  pub set_nx : ℕ → String → Stored → ℕ → State → Bool × State
  -- TTL: seconds left, negative where the key is missing or has no expiry
  pub ttl : ℕ → String → State → ℤ
  pub del : String → State → State
  -- INCR: the new count, or an error reply
  pub incr : ℕ → String → State → Option (ℕ × State)
  -- EXPIRE key seconds
  pub expire : ℕ → String → ℕ → State → State
  pub get-set_ex :
      (now t : ℕ) (k j : String) (v : Stored) (s : ℕ) (σ : State)
      → now ≤ t
      → get t j (set_ex now k v s σ)
        ≡ (if str_eq k j then (if ltb t (now + s * 1000) then some v else none) else get t j σ)
  pub get-del :
      (t : ℕ) (k j : String) (σ : State)
      → get t j (del k σ) ≡ (if str_eq k j then none else get t j σ)
  pub set_nx_lem :
      (now : ℕ) (k : String) (v : Stored) (s : ℕ) (σ : State)
      → set_nx now k v s σ
        ≡ (if is_some (get now k σ) then (false, σ) else (true, set_ex now k v s σ))
  pub ttl_live :
      (t : ℕ) (k : String) (σ : State) (n : ℕ) → ttl t k σ ≡ pos n → is_some (get t k σ) ≡ true
  -- A key that is still there was there before.
  pub get_earlier :
      (t t' : ℕ) (k : String) (σ : State) (v : Stored)
      → t ≤ t'
      → get t' k σ ≡ some v
      → get t k σ ≡ some v
  pub incr_count :
      (t : ℕ) (k : String) (σ : State) → (incr t k σ >>= λ r. some r.0) ≡ next_count (get t k σ)
  -- INCR keeps the expiry of a key, and gives a new key none.
  pub get-incr :
      (t t' : ℕ) (k j : String) (σ σ' : State) (n : ℕ)
      → incr t k σ ≡ some (n, σ')
      → t ≤ t'
      → get t' j σ'
        ≡ (if str_eq k j then while_live (get t k σ) (get t' k σ) (number n) else get t' j σ)
  pub get-expire :
      (t t' : ℕ) (k j : String) (s : ℕ) (σ : State)
      → t ≤ t'
      → get t' j (expire t k s σ)
        ≡ (if str_eq k j then (if ltb t' (t + s * 1000) then get t k σ else none) else get t' j σ)
