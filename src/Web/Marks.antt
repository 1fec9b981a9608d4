-- ===== src/Web/Marks.antt =====
-- The characters of a page that can be read as markup: src/web/page.ts.
use Prim.Native.Char.{Char, code}
use text.Mathlib.TextLemmas.{nil-append, cons-append}
use kisauth.Base.{ℕ, ◌+◌, String, ◌==◌, if◌then◌else◌, ◌≡◌, refl, ap, ◌∙◌, arith, ◌||◌, true, Bool}
use kisauth.Base.Texts.{◌++◌}
use kisauth.Web.Escape.{escape_html}
use kisauth.Web.Escaped.{entity, entity_ind, escape_html-nil, escape_html-cons}

-- How often the character with the code c stands in a text.
pub occurrences : ℕ → String → ℕ
occurrences c String.[] = 0
occurrences c (String.◌∷◌ x s) = (if code x == c then 1 else 0) + occurrences c s

pub occurrences-append :
    (c : ℕ) (s t : String) → occurrences c (s ++ t) ≡ occurrences c s + occurrences c t
unfolding occurrences
occurrences-append c String.[] t = rw (nil-append t) (omega arith)
occurrences-append c (String.◌∷◌ x s) t =
    rw (cons-append x s t) (omega (arith, occurrences-append c s t))

-- Quotes and angle brackets.
abbrev pub is_mark : ℕ → Bool
is_mark c = c == b'<' || (c == b'>' || (c == b'"' || c == b'\''))

occurrences-entity : (c : ℕ) (x : Char) → is_mark c ≡ true → occurrences c (entity x) ≡ 0
unfolding occurrences
occurrences-entity c x h =
    entity_ind (λ t. occurrences c t ≡ 0) x (ground arith) (ground arith) (ground arith)
      (ground arith) (ground arith) (λ a b d e. ground arith)

occurrences-nil : (c : ℕ) → occurrences c "" ≡ 0
unfolding occurrences
occurrences-nil c = refl

pub occurrences-escape_html :
    (c : ℕ) (s : String) → is_mark c ≡ true → occurrences c (escape_html s) ≡ 0
occurrences-escape_html c String.[] h = ap (occurrences c) escape_html-nil ∙ occurrences-nil c
occurrences-escape_html c (String.◌∷◌ x s) h =
    rw (escape_html-cons x s, occurrences-append)
      (omega (arith, occurrences-entity c x h, occurrences-escape_html c s h))
