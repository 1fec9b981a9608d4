-- ===== src/Base/Texts.antt =====
-- Texts that begin differently are different, whatever follows.
pub use Prim.Native.String.{◌++◌, count}
use Prim.Native.String.{String}
use mathlib.Core.Path.{◌≡◌, sym, ◌∙◌}
use mathlib.Core.Logic.{◌≢◌}
use text.Mathlib.TextLemmas.{append_inj, append_assoc}

-- Two texts with beginnings of one length that differ.
pub prefix_clash :
    (r s : String) (p q x y : String) → count r ≡ count s → r ≢ s → (r ++ p) ++ x ≢ (s ++ q) ++ y
prefix_clash r s p q x y same differ h =
    differ (append_inj (sym (append_assoc r p x) ∙ h ∙ append_assoc s q y) same).0
