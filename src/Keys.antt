-- ===== src/Keys.antt =====
-- The key prefixes of src/redis/challenge-store.ts, src/oauth/oauth-session.store.ts,
-- src/security/rate-limit.ts and src/security/link-ticket.ts, and that they keep apart.
use text.Mathlib.TextLemmas.{append_cancel_left}
use kisauth.Base.{
  Bool, true, false, String, ◌≡◌, refl, sym, ◌∙◌, ap, arith, str_eq, eq_iff, str_eq_of_ne,
  if◌then◌else◌,
}
use kisauth.Base.Texts.{◌++◌, count, prefix_clash}

abbrev pub challenge_prefix : String
challenge_prefix = "kisauth:challenge:"

abbrev pub code_prefix : String
code_prefix = "kisauth:code:"

abbrev pub reg_ticket_prefix : String
reg_ticket_prefix = "kisauth:regticket:"

abbrev pub session_prefix : String
session_prefix = "kisauth:oauthsession:"

abbrev pub rate_limit_prefix : String
rate_limit_prefix = "kisauth:ratelimit:"

abbrev pub nonce_prefix : String
nonce_prefix = "kisauth:linkticketnonce:"

-- The kinds of record that share one Redis.
pub data Space : Type 0 where
  challenges codes tickets sessions limits nonces : Space

abbrev pub prefix : Space → String
prefix challenges = challenge_prefix
prefix codes = code_prefix
prefix tickets = reg_ticket_prefix
prefix sessions = session_prefix
prefix limits = rate_limit_prefix
prefix nonces = nonce_prefix

abbrev pub same : Space → Space → Bool
same challenges challenges = true
same codes codes = true
same tickets tickets = true
same sessions sessions = true
same limits limits = true
same nonces nonces = true
same _ _ = false

-- The first ten letters of each prefix, and what follows them.
abbrev stem : Space → String
stem challenges = "kisauth:ch"
stem codes = "kisauth:co"
stem tickets = "kisauth:re"
stem sessions = "kisauth:oa"
stem limits = "kisauth:ra"
stem nonces = "kisauth:li"

abbrev rest : Space → String
rest challenges = "allenge:"
rest codes = "de:"
rest tickets = "gticket:"
rest sessions = "uthsession:"
rest limits = "telimit:"
rest nonces = "nkticketnonce:"

pub str_eq_prefix : (p x y : String) → str_eq (p ++ x) (p ++ y) ≡ str_eq x y
str_eq_prefix p x y =
    ground (arith, eq_iff (p ++ x) (p ++ y), eq_iff x y, append_cancel_left p x y, ap (λ t. p ++ t))

prefix-stem : (a : Space) → prefix a ≡ stem a ++ rest a
prefix-stem challenges = refl
prefix-stem codes = refl
prefix-stem tickets = refl
prefix-stem sessions = refl
prefix-stem limits = refl
prefix-stem nonces = refl

count-stem : (a : Space) → count (stem a) ≡ 10
count-stem challenges = refl
count-stem codes = refl
count-stem tickets = refl
count-stem sessions = refl
count-stem limits = refl
count-stem nonces = refl

str_eq-stem : (a b : Space) → str_eq (stem a) (stem b) ≡ same a b
str_eq-stem challenges challenges = refl
str_eq-stem codes codes = refl
str_eq-stem tickets tickets = refl
str_eq-stem sessions sessions = refl
str_eq-stem limits limits = refl
str_eq-stem nonces nonces = refl
str_eq-stem _ _ = refl

apart :
    (a b : Space) (x y : String) → same a b ≡ false → str_eq (prefix a ++ x) (prefix b ++ y) ≡ false
apart a b x y e =
    rw (prefix-stem a, prefix-stem b)
      (str_eq_of_ne _ _ (
        prefix_clash (stem a) (stem b) (rest a) (rest b) x y (count-stem a ∙ sym (count-stem b))
          (ground (arith, eq_iff (stem a) (stem b), str_eq-stem a b))))

-- Two keys are equal exactly if they are of one kind and go on alike.
pub str_eq-prefix :
    (a b : Space) (x y : String)
    → str_eq (prefix a ++ x) (prefix b ++ y) ≡ (if same a b then str_eq x y else false)
str_eq-prefix challenges challenges x y = str_eq_prefix (prefix challenges) x y
str_eq-prefix codes codes x y = str_eq_prefix (prefix codes) x y
str_eq-prefix tickets tickets x y = str_eq_prefix (prefix tickets) x y
str_eq-prefix sessions sessions x y = str_eq_prefix (prefix sessions) x y
str_eq-prefix limits limits x y = str_eq_prefix (prefix limits) x y
str_eq-prefix nonces nonces x y = str_eq_prefix (prefix nonces) x y
str_eq-prefix a b x y = apart a b x y refl
