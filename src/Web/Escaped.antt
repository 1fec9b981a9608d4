-- ===== src/Web/Escaped.antt =====
-- What escapeHtml of src/web/page.ts makes of a text, and that a browser shows the text again.
use Prim.Native.Char.{Char, code}
use text.Mathlib.TextLemmas.{nil-append, cons-append, append-nil, append_assoc}
use kisauth.Base.{
  ℕ, String, ◌==◌, if◌then◌else◌, ◌≡◌, refl, ap, sym, ◌∙◌, Bool-cases, inl, inr, false,
}
use kisauth.Base.Texts.{◌++◌}
use kisauth.Web.Escape.{replace_all, escape_html}

abbrev pub single : Char → String
single x = String.◌∷◌ x ""

cons-single : (x : Char) (s : String) → String.◌∷◌ x s ≡ single x ++ s
cons-single x s = sym (cons-append x "" s ∙ ap (λ t. String.◌∷◌ x t) (nil-append s))

replace_all-append :
    (c : ℕ) (t s u : String) → replace_all c t (s ++ u) ≡ replace_all c t s ++ replace_all c t u
unfolding replace_all
replace_all-append c t String.[] u =
    ap (replace_all c t) (nil-append u) ∙ sym (nil-append (replace_all c t u))
replace_all-append c t (String.◌∷◌ x s) u =
    rw (cons-append, replace_all, replace_all-append c t s u, append_assoc)

escape_html-append : (s u : String) → escape_html (s ++ u) ≡ escape_html s ++ escape_html u
unfolding escape_html
escape_html-append s u = simp (replace_all-append)

-- What stands for a character in the page.
abbrev pub entity : Char → String
entity x =
    if code x == b'&'
    then "&amp;"
    else if code x == b'<'
    then "&lt;"
    else if code x == b'>'
    then "&gt;"
    else if code x == b'"'
    then "&quot;"
    else if code x == b'\''
    then "&#39;"
    else single x

replace_all-single :
    (c : ℕ) (t : String) (x : Char)
    → replace_all c t (single x) ≡ (if code x == c then t else single x)
unfolding replace_all
replace_all-single c t x = append-nil _

-- The later passes leave what an earlier one has put in.
amp_stays :
    replace_all b'\'' "&#39;"
      (replace_all b'"' "&quot;" (replace_all b'>' "&gt;" (replace_all b'<' "&lt;" "&amp;")))
    ≡ "&amp;"
unfolding replace_all
amp_stays = refl

lt_stays :
    replace_all b'\'' "&#39;" (replace_all b'"' "&quot;" (replace_all b'>' "&gt;" "&lt;")) ≡ "&lt;"
unfolding replace_all
lt_stays = refl

gt_stays : replace_all b'\'' "&#39;" (replace_all b'"' "&quot;" "&gt;") ≡ "&gt;"
unfolding replace_all
gt_stays = refl

quot_stays : replace_all b'\'' "&#39;" "&quot;" ≡ "&quot;"
unfolding replace_all
quot_stays = refl

escape_html-single : (x : Char) → escape_html (single x) ≡ entity x
unfolding escape_html
escape_html-single x = elim (Bool-cases (code x == b'&')) [
  | inl is ↦ rw (replace_all-single, is) amp_stays
  | inr a ↦ elim (Bool-cases (code x == b'<')) [
    | inl is ↦ rw (replace_all-single, a, replace_all-single, is) lt_stays
    | inr b ↦ elim (Bool-cases (code x == b'>')) [
      | inl is ↦ rw (replace_all-single, a, replace_all-single, b, replace_all-single, is) gt_stays
      | inr c ↦ elim (Bool-cases (code x == b'"')) [
        | inl is ↦
            rw
              (
                replace_all-single, a, replace_all-single, b, replace_all-single, c,
                replace_all-single, is,
              )
              quot_stays
        | inr d ↦ rw (
          replace_all-single, a, replace_all-single, b, replace_all-single, c, replace_all-single,
          d, replace_all-single,
        )
      ]
    ]
  ]
]

pub escape_html-nil : escape_html "" ≡ ""
unfolding escape_html replace_all
escape_html-nil = refl

-- What holds of the five references, and of every other character, holds of what stands in the page.
pub entity_ind :
    (P : String → Type 0) (x : Char)
    → P "&amp;"
    → P "&lt;"
    → P "&gt;"
    → P "&quot;"
    → P "&#39;"
    → ((code x == b'<') ≡ false
        → (code x == b'>') ≡ false
        → (code x == b'"') ≡ false
        → (code x == b'\'') ≡ false
        → P (single x))
    → P (entity x)
entity_ind P x amp lt gt quot apos other = elim (Bool-cases (code x == b'&')) [
  | inl is ↦ rw is amp
  | inr a ↦ elim (Bool-cases (code x == b'<')) [
    | inl is ↦ rw (a, is) lt
    | inr b ↦ elim (Bool-cases (code x == b'>')) [
      | inl is ↦ rw (a, b, is) gt
      | inr c ↦ elim (Bool-cases (code x == b'"')) [
        | inl is ↦ rw (a, b, c, is) quot
        | inr d ↦ elim (Bool-cases (code x == b'\'')) [
          | inl is ↦ rw (a, b, c, d, is) apos
          | inr e ↦ rw (a, b, c, d, e) (other b c d e)
        ]
      ]
    ]
  ]
]

pub escape_html-cons :
    (x : Char) (s : String) → escape_html (String.◌∷◌ x s) ≡ entity x ++ escape_html s
escape_html-cons x s =
    ap escape_html (cons-single x s)
    ∙ escape_html-append (single x) s
    ∙ ap (λ t. t ++ escape_html s) (escape_html-single x)
