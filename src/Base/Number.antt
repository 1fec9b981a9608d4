-- ===== src/Base/Number.antt =====
-- The numbers of JavaScript, as far as comparing them with whole numbers can tell them apart.
use kisauth.Base.Tests.{ltb, leb}
use kisauth.Base.Int.{ℤ, pos, negsuc}
use Prim.Native.Nat.{ℕ}
use mathlib.Core.Bool.{Bool, true, false}

-- `between z` lies strictly between z and z + 1.
pub data Number : Type 0 where
  nan : Number
  infinite : (negative : Bool) → Number
  whole : ℤ → Number
  between : ℤ → Number

abbrev pub int_leb : ℤ → ℕ → Bool
int_leb (pos a) n = leb a n
int_leb (negsuc a) n = true

abbrev pub int_ltb : ℤ → ℕ → Bool
int_ltb (pos a) n = ltb a n
int_ltb (negsuc a) n = true

-- `x <= n` for a whole n; false on NaN.
abbrev pub num_leb : Number → ℕ → Bool
num_leb nan n = false
num_leb (infinite negative) n = negative
num_leb (whole z) n = int_leb z n
num_leb (between z) n = int_ltb z n
