-- ===== src/Tests/Runtime.antt =====
-- A concrete runtime: texts for digests, unary numbers, the order of code points.
use Prim.Native.Char.{code}
use kisauth.Base.{
  ℕ, Bool, String, some, true, false, if◌then◌else◌, ltb, ◌==◌, ◌≡◌, refl, arith, ap, suc, zero,
}
use kisauth.Base.Int.{pos}
use kisauth.Base.Number.{Number, nan, whole}
use kisauth.Base.Texts.{◌++◌}
use kisauth.Js.{Js}
use kisauth.Json.{str}
use kisauth.Signing.RoundTrip.{Prints}
use kisauth.Signing.Canonical.{IsOrder}
use text.Mathlib.TextEquality.{Char-path}

abbrev unary : ℕ → String
unary zero = ""
unary (suc n) = String.◌∷◌ "1" (unary n)

abbrev ones : String → ℕ
ones String.[] = 0
ones (String.◌∷◌ c rest) = suc (ones rest)

-- Texts count for the number of their characters after the first.
abbrev pub read_number : String → Number
read_number String.[] = nan
read_number (String.◌∷◌ c rest) = whole (pos (ones rest))

abbrev pub before : String → String → Bool
before String.[] t = true
before (String.◌∷◌ c s) String.[] = false
before (String.◌∷◌ c s) (String.◌∷◌ d t) =
    let rest = before s t in
    if ltb (code c) (code d) then true else if code c == code d then rest else false

abbrev pub js : Js
js = record {
  hmac = λ secret payload. String.◌∷◌ "h" (secret ++ payload);
  sha256 = λ s. s;
  sha256_base64url = λ s. s;
  quote = λ s. "'" ++ (s ++ "'");
  print_number = λ n. "0";
  parse_json = λ s. some (str s);
  to_number = read_number;
  upper = λ s. s;
  may_precede = before;
  print_nat = λ n. String.◌∷◌ "n" (unary n);
  encode_component = λ s. s;
  Url = String;
  new_url = λ s base. some s;
  parse_url = λ s. some s;
  pathname = λ u. u;
  query = λ u. "";
  set_param = λ name value u. u ++ (name ++ value);
  href = λ u. u;
}

ones-unary : (n : ℕ) → ones (unary n) ≡ n
ones-unary zero = refl
ones-unary (suc n) = ap suc (ones-unary n)

pub js-Prints : Prints js
js-Prints = record {
  read_back = λ n. ap (λ k. whole (pos k)) (ones-unary n);
  print-ne = λ n e. cc;
  hmac-ne = λ s p e. cc;
}

before_total : (a b : String) → before a b ≡ false → before b a ≡ true
before_total String.[] b h = ground arith
before_total (String.◌∷◌ c s) String.[] h = refl
before_total (String.◌∷◌ c s) (String.◌∷◌ d t) h = ground (arith, before_total s t)

before_antisym : (a b : String) → before a b ≡ true → before b a ≡ true → a ≡ b
before_antisym String.[] String.[] h k = refl
before_antisym String.[] (String.◌∷◌ d t) h k = ground arith
before_antisym (String.◌∷◌ c s) String.[] h k = ground arith
before_antisym (String.◌∷◌ c s) (String.◌∷◌ d t) h k =
    let same : code c ≡ code d = ground arith in
    let rest : s ≡ t = before_antisym s t (ground arith) (ground arith) in
    rw (Char-path c d same, rest)

before_trans : (a b c : String) → before a b ≡ true → before b c ≡ true → before a c ≡ true
before_trans String.[] b c h k = refl
before_trans (String.◌∷◌ x s) String.[] c h k = ground arith
before_trans (String.◌∷◌ x s) (String.◌∷◌ y t) String.[] h k = ground arith
before_trans (String.◌∷◌ x s) (String.◌∷◌ y t) (String.◌∷◌ z u) h k =
    ground (arith, before_trans s t u)

pub before-IsOrder : IsOrder before
before-IsOrder = record { total = before_total; antisym = before_antisym; trans = before_trans }
