-- ===== src/Cookies/Sent.antt =====
-- What src/http/cookies.ts makes of a part of a Cookie header.

use Prim.Native.Char.{Char, code}
use text.Mathlib.TextLemmas.{nil-append, cons-append, append_assoc}
use kisauth.Base.{
  ℕ, Bool, true, String, Option, some, List, ◌∷◌, ◌&&◌, ◌==◌, not, ◌≡◌, ◌≢◌, refl, ap, sym, ◌∙◌,
  arith, str_eq_of_ne, Bool-cases, inl, inr,
}
use kisauth.Base.Texts.{◌++◌}
use kisauth.Cookies.Parse.{is_space, trim_start, trim_end, trim, cut, onto, add_part}

-- No character of the text passes the test.
abbrev pub lacks : (ℕ → Bool) → String → Bool
lacks p String.[] = true
lacks p (String.◌∷◌ x s) = not (p (code x)) && lacks p s

-- Every character of the text passes the test.
abbrev pub only : (ℕ → Bool) → String → Bool
only p String.[] = true
only p (String.◌∷◌ x s) = p (code x) && only p s

trim_end-plain : (s : String) → lacks is_space s ≡ true → trim_end s ≡ s
unfolding trim_end
trim_end-plain String.[] h = refl
trim_end-plain (String.◌∷◌ x s) h = elim (Bool-cases (is_space (code x))) [
  | inl space ↦ ground arith
  | inr solid ↦ let rest : trim_end s ≡ s = trim_end-plain s (rw solid at h) in rw (rest, solid)
]

trim_start-plain : (s : String) → lacks is_space s ≡ true → trim_start s ≡ s
unfolding trim_start
trim_start-plain String.[] h = refl
trim_start-plain (String.◌∷◌ x s) h = elim (Bool-cases (is_space (code x))) [
  | inl space ↦ ground arith
  | inr solid ↦ rw solid
]

trim_start-append : (l s : String) → only is_space l ≡ true → trim_start (l ++ s) ≡ trim_start s
unfolding trim_start
trim_start-append String.[] s h = ap trim_start (nil-append s)
trim_start-append (String.◌∷◌ x l) s h = elim (Bool-cases (is_space (code x))) [
  | inr solid ↦ ground arith
  | inl space ↦
      ap trim_start (cons-append x l s)
      ∙ rw (space, trim_start) (trim_start-append l s (rw space at h))
]

-- Spaces before a text without any are taken off, and nothing else.
pub trim-append :
    (l s : String) → only is_space l ≡ true → lacks is_space s ≡ true → trim (l ++ s) ≡ s
unfolding trim
trim-append l s h k =
    ap trim_end (trim_start-append l s h ∙ trim_start-plain s k) ∙ trim_end-plain s k

pub lacks-append :
    (p : ℕ → Bool) (s t : String) → lacks p s ≡ true → lacks p t ≡ true → lacks p (s ++ t) ≡ true
lacks-append p String.[] t h k = rw (nil-append t) k
lacks-append p (String.◌∷◌ x s) t h k = elim (Bool-cases (p (code x))) [
  | inl bad ↦ ground arith
  | inr good ↦ rw (cons-append x s t, good) (lacks-append p s t (rw good at h) k)
]

cut-append :
    (c : ℕ) (s : String) (x : Char) (t : String)
    → lacks (λ k. k == c) s ≡ true
    → (code x == c) ≡ true
    → cut c (s ++ String.◌∷◌ x t) ≡ some (s, t)
unfolding cut
cut-append c String.[] x t h is = ap (cut c) (nil-append (String.◌∷◌ x t)) ∙ rw (is, cut)
cut-append c (String.◌∷◌ y s) x t h is = elim (Bool-cases (code y == c)) [
  | inl bad ↦ ground arith
  | inr good ↦
      ap (cut c) (cons-append y s (String.◌∷◌ x t))
      ∙ rw (good, cut) (ap (onto y) (cut-append c s x t (rw good at h) is))
]

-- A cookie as a browser sends it: a name, the text behind the equals sign, and what decodeURIComponent
-- makes of that text.
pub record Cookie : Type 0 where
  pub name : String
  pub raw : String
  pub value : String

abbrev pub written : Cookie → String
written c = c.name ++ ("=" ++ c.raw)

abbrev pub is_semicolon : ℕ → Bool
is_semicolon k = k == b';'

-- The name is neither empty nor `__proto__` and holds neither = nor ; nor a space; the text holds neither ; nor a space,
-- and can be decoded.
pub record IsSent (decode : String → Option String) (c : Cookie) : Type 0 where
  pub named : c.name ≢ ""
  pub own : c.name ≢ "__proto__"
  pub name_plain : lacks is_space c.name ≡ true
  pub name_whole : lacks (λ k. k == b'=') c.name ≡ true
  pub name_one : lacks is_semicolon c.name ≡ true
  pub raw_plain : lacks is_space c.raw ≡ true
  pub raw_one : lacks is_semicolon c.raw ≡ true
  pub decoded : decode c.raw ≡ some c.value

module _ (decode : String → Option String) where
  -- A part of the header is read as the cookie that it was written for.
  pub add_part-written :
      (lead : String) (c : Cookie) (out : List (String × String))
      → only is_space lead ≡ true
      → lacks (λ k. k == b'=') lead ≡ true
      → IsSent decode c
      → add_part decode (lead ++ written c) out ≡ some ((c.name, c.value) ∷ out)
  unfolding add_part
  add_part-written lead c out blank whole sent =
      let equals : "=" ++ c.raw ≡ String.◌∷◌ "=" c.raw =
        cons-append "=" "" c.raw ∙ ap (λ t. String.◌∷◌ "=" t) (nil-append c.raw) in
      let parted : cut b'=' (lead ++ written c) ≡ some (lead ++ c.name, c.raw) =
        ap (cut b'=')
          (sym (append_assoc lead c.name ("=" ++ c.raw)) ∙ ap (λ t. (lead ++ c.name) ++ t) equals)
        ∙ cut-append b'=' (lead ++ c.name) "=" c.raw
            (lacks-append (λ k. k == b'=') lead c.name whole sent.name_whole) refl in
      let trimmed : trim (lead ++ c.name) ≡ c.name =
        trim-append lead c.name blank sent.name_plain in
      let plain : trim c.raw ≡ c.raw =
        ap trim (sym (nil-append c.raw)) ∙ trim-append "" c.raw refl sent.raw_plain in
      rw (
        parted,
        trimmed,
        plain,
        str_eq_of_ne c.name "" sent.named,
        sent.decoded,
        str_eq_of_ne c.name "__proto__" sent.own,
        add_part,
      )
