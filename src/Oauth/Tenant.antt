-- ===== src/Oauth/Tenant.antt =====
-- src/oauth/oidc-identity-key.ts: the subject that tells the tenants of enterprise sign-in apart.
use Prim.Native.Char.{Char, code}
use kisauth.Base.{true, String, ◌≡◌, ◌≢◌, refl, arith, ap, sym, ◌∙◌}
use kisauth.Base.Texts.{◌++◌}
use text.Mathlib.TextLemmas.{nil-append, cons-append}
use kisauth.Oauth.Authorize.{is_partner_slug, slug_chars}

unfoldable pub composite_oidc_subject : (partner_slug sub : String) → String
composite_oidc_subject partner_slug sub = partner_slug ++ (":" ++ sub)

cons_inj : {c d : Char} {s t : String} → String.◌∷◌ c s ≡ String.◌∷◌ d t → (c ≡ d) × (s ≡ t)
cons_inj e = (cc, cc)

-- A text before a colon, opened at its first character.
open_cons :
    (c : Char) (a s : String) → String.◌∷◌ c a ++ (":" ++ s) ≡ String.◌∷◌ c (a ++ (":" ++ s))
open_cons c a s = cons-append c a (":" ++ s)

open_nil : (s : String) → "" ++ (":" ++ s) ≡ String.◌∷◌ ":" s
open_nil s =
    nil-append (":" ++ s) ∙ cons-append ":" "" s ∙ ap (λ x. String.◌∷◌ ":" x) (nil-append s)

colon_is_no_slug : (d : Char) (b : String) → slug_chars (String.◌∷◌ d b) ≡ true → ":" ≢ d
colon_is_no_slug d b h e = let same : 58 ≡ code d = ap code e in ground arith

slug_inj :
    (a b s t : String)
    → slug_chars a ≡ true
    → slug_chars b ≡ true
    → a ++ (":" ++ s) ≡ b ++ (":" ++ t)
    → (a ≡ b) × (s ≡ t)
slug_inj String.[] String.[] s t ha hb h = (refl, (cons_inj (sym (open_nil s) ∙ h ∙ open_nil t)).1)
slug_inj String.[] (String.◌∷◌ d b) s t ha hb h =
    absurd (colon_is_no_slug d b hb (cons_inj (sym (open_nil s) ∙ h ∙ open_cons d b t)).0)
slug_inj (String.◌∷◌ c a) String.[] s t ha hb h =
    absurd (colon_is_no_slug c a ha (cons_inj (sym (open_nil t) ∙ sym h ∙ open_cons c a s)).0)
slug_inj (String.◌∷◌ c a) (String.◌∷◌ d b) s t ha hb h =
    let (first, rest) = cons_inj (sym (open_cons c a s) ∙ h ∙ open_cons d b t) in
    let (same, subjects) = slug_inj a b s t (ground arith) (ground arith) rest in
    (rw (first, same), subjects)

-- Two tenants, or two users of a tenant, never share a provider subject, if both slugs pass the
-- pattern that /authorize asks for.
pub composite_oidc_subject_inj :
    (slug slug' sub sub' : String)
    → is_partner_slug slug ≡ true
    → is_partner_slug slug' ≡ true
    → composite_oidc_subject slug sub ≡ composite_oidc_subject slug' sub'
    → (slug ≡ slug') × (sub ≡ sub')
unfolding composite_oidc_subject is_partner_slug
composite_oidc_subject_inj slug slug' sub sub' h h' same =
    slug_inj slug slug' sub sub' (ground arith) (ground arith) same
