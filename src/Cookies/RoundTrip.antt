-- ===== src/Cookies/RoundTrip.antt =====
-- parseCookieHeader of src/http/cookies.ts reads back every cookie that a browser sends.
use Prim.Native.Char.{code}
use text.Mathlib.TextLemmas.{cons-ne-nil, nil-append, cons-append, append-nil, append_assoc}
use kisauth.Base.{
  ℕ, true, String, Option, some, List, [], ◌∷◌, ◌==◌, ◌≡◌, refl, ap, sym, ◌∙◌, arith, Bool-cases,
  inl, inr, All, map, str_eq_of_ne, ◌≢◌,
}
use kisauth.Base.Texts.{◌++◌}
use kisauth.LinkTicket.{split, split_from}
use kisauth.Signing.{given}
use kisauth.Signing.Payload.{join}
use kisauth.Cookies.Parse.{parse_parts, parse_cookie_header}
use kisauth.Cookies.Sent.{
  lacks, lacks-append, Cookie, written, is_semicolon, IsSent, add_part-written,
}

append-ne : (s t : String) → s ≢ "" → s ++ t ≢ ""
append-ne String.[] t h e = absurd (h refl)
append-ne (String.◌∷◌ x s) t h e = cons-ne-nil x (s ++ t) (sym (cons-append x s t) ∙ e)

given-text : (s : String) → s ≢ "" → given (some s) ≡ some s
given-text s h = rw (str_eq_of_ne s "" h)

-- A part without the separator is read to its end.
split_from-append :
    (c : ℕ) (cur s t : String)
    → lacks (λ k. k == c) s ≡ true
    → split_from c cur (s ++ t) ≡ split_from c (cur ++ s) t
unfolding split_from
split_from-append c cur String.[] t h =
    ap (split_from c cur) (nil-append t) ∙ ap (λ u. split_from c u t) (sym (append-nil cur))
split_from-append c cur (String.◌∷◌ x s) t h = elim (Bool-cases (code x == c)) [
  | inl bad ↦ ground arith
  | inr good ↦
      let letter : String = String.◌∷◌ x "" in
      ap (split_from c cur) (cons-append x s t)
      ∙ rw (good, split_from) (split_from-append c (cur ++ letter) s t (rw good at h))
      ∙ ap (λ u. split_from c u t)
          (append_assoc cur letter s
            ∙ ap (λ v. cur ++ v) (cons-append x "" s ∙ ap (λ v. String.◌∷◌ x v) (nil-append s)))
]

split_from-last :
    (cur s : String) → lacks is_semicolon s ≡ true → split_from b';' cur s ≡ (cur ++ s) ∷ []
unfolding split_from
split_from-last cur s h =
    ap (split_from b';' cur) (sym (append-nil s)) ∙ split_from-append b';' cur s "" h

split_from-separator :
    (cur t : String) → split_from b';' cur ("; " ++ t) ≡ cur ∷ split_from b';' " " t
unfolding split_from
split_from-separator cur t = ap (split_from b';' cur) (
    cons-append ";" " " t
    ∙ ap (λ u. String.◌∷◌ ";" u) (cons-append " " "" t ∙ ap (λ u. String.◌∷◌ " " u) (nil-append t)))

-- The parts of a header: every part but the first has a space before it.
abbrev spaced : List Cookie → List String
spaced [] = []
spaced (c ∷ cs) = (" " ++ written c) ∷ spaced cs

abbrev pub header_of : List Cookie → String
header_of cookies = join "; " (map written cookies)

-- The object that is filled, the newest first.
abbrev pub filled : List Cookie → List (String × String) → List (String × String)
filled [] out = out
filled (c ∷ cs) out = filled cs ((c.name, c.value) ∷ out)

module _ (decode : String → Option String) where
  written_one : (c : Cookie) → IsSent decode c → lacks is_semicolon (written c) ≡ true
  written_one c sent =
      lacks-append is_semicolon c.name ("=" ++ c.raw) sent.name_one
        (lacks-append is_semicolon "=" c.raw refl sent.raw_one)

  split_from-header :
      (cur : String) (c : Cookie) (cs : List Cookie)
      → All (IsSent decode) (c ∷ cs)
      → split_from b';' cur (header_of (c ∷ cs)) ≡ (cur ++ written c) ∷ spaced cs
  split_from-header cur c [] all = split_from-last cur (written c) (written_one c all.0)
  split_from-header cur c (d ∷ cs) all =
      split_from-append b';' cur (written c) ("; " ++ header_of (d ∷ cs)) (written_one c all.0)
      ∙ split_from-separator (cur ++ written c) (header_of (d ∷ cs))
      ∙ ap (λ rest. (cur ++ written c) ∷ rest) (split_from-header " " d cs all.1)

  parse_parts-spaced :
      (cs : List Cookie) (out : List (String × String))
      → All (IsSent decode) cs
      → parse_parts decode (spaced cs) out ≡ some (filled cs out)
  unfolding parse_parts
  parse_parts-spaced [] out all = refl
  parse_parts-spaced (c ∷ cs) out all =
      rw (add_part-written decode " " c out refl refl all.0, parse_parts)
        (parse_parts-spaced cs ((c.name, c.value) ∷ out) all.1)

  header_of-ne : (c : Cookie) (cs : List Cookie) → IsSent decode c → header_of (c ∷ cs) ≢ ""
  header_of-ne c [] sent = append-ne c.name ("=" ++ c.raw) sent.named
  header_of-ne c (d ∷ cs) sent =
      append-ne (written c) ("; " ++ header_of (d ∷ cs))
        (append-ne c.name ("=" ++ c.raw) sent.named)

  -- A header that a browser writes of cookies whose names and texts hold no separators, whose names
  -- are neither empty nor `__proto__`, and whose texts can be decoded, is read as these cookies: each name with its value, the last one of a name
  -- first.
  pub parse_cookie_header-header_of :
      (cookies : List Cookie)
      → All (IsSent decode) cookies
      → parse_cookie_header decode (some (header_of cookies)) ≡ some (filled cookies [])
  unfolding parse_cookie_header split parse_parts
  parse_cookie_header-header_of [] all = refl
  parse_cookie_header-header_of (c ∷ cs) all =
      let there = given-text (header_of (c ∷ cs)) (header_of-ne c cs all.0) in
      rw (there, parse_cookie_header)
        (ap (λ parts. parse_parts decode parts []) (split_from-header "" c cs all)
          ∙ rw (add_part-written decode "" c [] refl refl all.0, parse_parts)
              (parse_parts-spaced cs ((c.name, c.value) ∷ []) all.1))
