-- ===== src/Traffic/Trace.antt =====
-- Runs of Redis commands, each at its time.
use kisauth.Base.{ℕ, ◌≤◌, List, [], ◌∷◌}
use kisauth.Redis.{Redis}
use kisauth.Traffic.{Command, step}

abbrev pub Trace : Type 0
Trace = List (ℕ × Command)

-- No command runs before the one above it, nor before `t`.
abbrev pub InOrder : ℕ → Trace → Type 0
InOrder t [] = Unit
InOrder t ((now, c) ∷ rest) = (t ≤ now) × InOrder now rest

module _ (r : Redis) where
  open r use {State}

  unfoldable pub run : Trace → State → State
  run [] σ = σ
  run ((now, c) ∷ rest) σ = run rest (step r now c σ).1
