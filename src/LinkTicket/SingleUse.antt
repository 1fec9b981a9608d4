-- ===== src/LinkTicket/SingleUse.antt =====
-- A link ticket is accepted once (src/security/link-ticket.ts), whatever runs in between.
use kisauth.Base.{ℕ, Bool, false, String, some, ◌≡◌, str_eq, ◌≤◌, ◌<◌}
use kisauth.Keys.{nonce_prefix}
use kisauth.Records.{number}
use kisauth.Redis.{Redis}
use kisauth.Traffic.{Command, claim_nonce}
use kisauth.Traffic.Trace.{Trace}
use kisauth.Base.Texts.{◌++◌}

abbrev claims : String → Command → Bool
claims n (claim_nonce m _) = str_eq m n
claims n _ = false

module _ (r : Redis) where
  open r use {State, get, get-set_ex, set_nx_lem}

  -- From `now` on and until the deadline the nonce is claimed.
  abbrev IsClaimed : ℕ → ℕ → String → State → Type 0
  IsClaimed now deadline n σ =
      (t : ℕ) → now ≤ t → t < deadline → get t (nonce_prefix ++ n) σ ≡ some (number 1)
