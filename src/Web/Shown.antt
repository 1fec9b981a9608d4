-- ===== src/Web/Shown.antt =====
-- A browser that reads the character references of an escaped text shows the text: escapeHtml of
-- src/web/page.ts.
use Prim.Native.Char.{Char, code}
use text.Mathlib.TextLemmas.{nil-append, cons-append}
use text.Mathlib.TextEquality.{Char-path}
use kisauth.Base.{
  ℕ, zero, suc, Bool, true, false, String, ◌&&◌, ◌==◌, if◌then◌else◌, ◌≡◌, refl, ap, ◌∙◌, arith,
  Bool-cases, inl, inr,
}
use kisauth.Base.Texts.{◌++◌}
use kisauth.Web.Escape.{escape_html}
use kisauth.Web.Escaped.{entity, escape_html-nil, escape_html-cons}

abbrev starts : String → String → Bool
starts String.[] s = true
starts (String.◌∷◌ c p) String.[] = false
starts (String.◌∷◌ c p) (String.◌∷◌ d s) = code c == code d && starts p s

-- The character that is shown at x with s behind it, and how much of s belongs to it.
abbrev shown_at : Char → String → Char × ℕ
shown_at x s =
    if code x == b'&'
    then (if starts "amp;" s
        then ("&", 4)
        else if starts "lt;" s
        then ("<", 3)
        else if starts "gt;" s
        then (">", 3)
        else if starts "quot;" s
        then ("\"", 5)
        else if starts "#39;" s
        then ("'", 4)
        else (x, 0))
    else (x, 0)

-- The first argument counts the characters to pass over.
pub shown_from : ℕ → String → String
shown_from n String.[] = ""
shown_from (suc n) (String.◌∷◌ x s) = shown_from n s
shown_from zero (String.◌∷◌ x s) = let (c, n) = shown_at x s in String.◌∷◌ c (shown_from n s)

-- What a browser shows for a text of a page.
pub shown : String → String
unfolding shown_from
shown s = shown_from 0 s

-- A text before another, opened.
abbrev opened : String → String → String
opened String.[] s = s
opened (String.◌∷◌ c p) s = String.◌∷◌ c (opened p s)

append-opened : (p s : String) → p ++ s ≡ opened p s
append-opened String.[] s = nil-append s
append-opened (String.◌∷◌ c p) s = cons-append c p s ∙ ap (λ t. String.◌∷◌ c t) (append-opened p s)

shown-entity : (x : Char) (s : String) → shown (entity x ++ s) ≡ String.◌∷◌ x (shown s)
unfolding shown shown_from
shown-entity x s = elim (Bool-cases (code x == b'&')) [
  | inl is ↦ rw (is, append-opened, Char-path x "&" (ground arith))
  | inr a ↦ elim (Bool-cases (code x == b'<')) [
    | inl is ↦ rw (a, is, append-opened, Char-path x "<" (ground arith))
    | inr b ↦ elim (Bool-cases (code x == b'>')) [
      | inl is ↦ rw (a, b, is, append-opened, Char-path x ">" (ground arith))
      | inr c ↦ elim (Bool-cases (code x == b'"')) [
        | inl is ↦ rw (a, b, c, is, append-opened, Char-path x "\"" (ground arith))
        | inr d ↦ elim (Bool-cases (code x == b'\'')) [
          | inl is ↦ rw (a, b, c, d, is, append-opened, Char-path x "'" (ground arith))
          | inr e ↦ rw (a, b, c, d, e, append-opened, a)
        ]
      ]
    ]
  ]
]

shown-nil : shown "" ≡ ""
unfolding shown shown_from
shown-nil = refl

-- A browser shows an escaped text exactly as the text is.
pub shown-escape_html : (s : String) → shown (escape_html s) ≡ s
shown-escape_html String.[] = ap shown escape_html-nil ∙ shown-nil
shown-escape_html (String.◌∷◌ x s) =
    ap shown (escape_html-cons x s)
    ∙ shown-entity x (escape_html s)
    ∙ ap (λ t. String.◌∷◌ x t) (shown-escape_html s)
