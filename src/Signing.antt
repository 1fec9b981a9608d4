-- ===== src/Signing.antt =====
-- src/security/internal-signing.ts: HMAC-signed requests between services.
-- Time is the millisecond that Date.now() reads. The verifier reads it twice, for the window and for
-- the cache: `checked_ms` and `now_ms`. The skew is a whole number of
-- seconds. Buffers and `undefined` fields, which a parsed JSON body never has, are left out.
pub mod Payload
pub mod Acceptance
pub mod Replay
pub mod RoundTrip
pub mod Canonical
use Payload.{body_hash, path_with_query, signature_payload, sign}
use kisauth.Base.{
  ℕ, suc, ◌+◌, ◌-◌, ◌*◌, ◌/◌, Bool, true, false, String, Option, none, some, List, [], ◌∷◌, ◌||◌,
  str_eq, leb, ltb, not, filter, any, if◌then◌else◌,
}
use kisauth.Base.Int.{pos, negsuc}
use kisauth.Base.Number.{Number, nan, infinite, whole, between}
use kisauth.Js.{Js}
use kisauth.Json.{Json}
use kisauth.LinkTicket.{same_bytes}

pub data Reason : Type 0 where
  missing_signature_headers invalid_timestamp timestamp_outside_window : Reason
  replayed_nonce signature_mismatch : Reason

-- VerifyResult; `thrown` is a URL that does not parse.
pub data VerifyResult : Type 0 where
  ok : VerifyResult
  refused : Reason → VerifyResult
  thrown : VerifyResult

-- A header's value: `string | string[]`.
pub data Header : Type 0 where
  one : String → Header
  many : List String → Header

-- A request as the verifier sees it; the headers are looked up by their names in lower case.
pub record Request : Type 0 where
  pub method : String
  pub url : String
  pub body : Option Json
  pub headers : String → Option Header

abbrev pub first_header : Option Header → Option String
first_header none = none
first_header (some (one value)) = some value
first_header (some (many [])) = none
first_header (some (many (value ∷ _))) = some value

-- A header that is there and not empty.
abbrev pub given : Option String → Option String
given none = none
given (some s) = if str_eq s "" then none else some s

-- nonceCache: each nonce with the millisecond at which it is forgotten.
abbrev pub Cache : Type 0
Cache = List (String × ℕ)

-- `for (const [key, expiresAt] of nonceCache.entries()) if (expiresAt <= now) …delete(key)`
abbrev pub sweep : ℕ → Cache → Cache
sweep now cache = filter (λ e. not (leb e.1 now)) cache

abbrev pub has : String → Cache → Bool
has nonce cache = any (λ e. str_eq e.0 nonce) cache

-- `Math.abs(seconds - ts) > skew`, in exact arithmetic, and true of what is not finite.
unfoldable pub outside_window : ℕ → Number → ℕ → Bool
outside_window now (whole (pos ts)) skew = ltb skew (now - ts) || ltb skew (ts - now)
outside_window now (whole (negsuc ts)) skew = ltb skew (now + suc ts)
outside_window now (between (pos ts)) skew = leb (skew + suc ts) now || leb (now + skew) ts
outside_window now (between (negsuc ts)) skew = leb skew (now + ts)
outside_window now _ skew = true

abbrev pub is_finite : Number → Bool
is_finite nan = false
is_finite (infinite _) = false
is_finite _ = true

-- `Math.max(30, Math.floor(maxSkewSeconds))`
abbrev pub effective_skew : ℕ → ℕ
effective_skew n = if leb n 30 then 30 else n

abbrev pub timestamp_header : String
timestamp_header = "x-internal-timestamp"

abbrev pub nonce_header : String
nonce_header = "x-internal-nonce"

abbrev pub signature_header : String
signature_header = "x-internal-signature"

module _ (js : Js) where
  open js use {to_number, print_nat}

  -- signedInternalHeaders: timestamp, nonce and signature. The nonce is a random UUID without its
  -- dashes; `none` is a URL that does not parse.
  unfoldable pub signed_internal_headers :
      (now_ms : ℕ)
      → (random : String) → (method url : String) → Option Json
      → (secret : String) → Option (String × String × String)
  signed_internal_headers now_ms random method url body secret = elim (path_with_query js url) [
    | none ↦ none
    | some path ↦
        let timestamp = print_nat (now_ms / 1000) in
        some (
          timestamp,
          random,
          sign js secret (signature_payload js method path timestamp random (body_hash js body)),
        )
  ]

  -- The part of verifyInternalSignature behind the checks of the headers and the time.
  check_signature :
      (now_ms skew : ℕ)
      → Request
      → (timestamp nonce signature secret : String) → Cache
      → VerifyResult × Cache
  check_signature now_ms skew req timestamp nonce signature secret cache =
      let swept = sweep now_ms cache in
      if has nonce swept
      then (refused replayed_nonce, swept)
      else elim (path_with_query js req.url) [
        | none ↦ (thrown, swept)
        | some path ↦
            let payload =
              signature_payload js req.method path timestamp nonce (body_hash js req.body) in
            if same_bytes (sign js secret payload) signature
            then (ok, (nonce, now_ms + skew * 1000) ∷ swept)
            else (refused signature_mismatch, swept)
      ]

  check_time :
      (checked_ms now_ms skew : ℕ)
      → Request
      → (timestamp nonce signature secret : String) → Cache
      → VerifyResult × Cache
  check_time checked_ms now_ms skew req timestamp nonce signature secret cache =
      let ts = to_number timestamp in
      if not (is_finite ts)
      then (refused invalid_timestamp, cache)
      else if outside_window (checked_ms / 1000) ts skew
      then (refused timestamp_outside_window, cache)
      else check_signature now_ms skew req timestamp nonce signature secret cache

  check_headers :
      (checked_ms now_ms skew : ℕ)
      → Request
      → (timestamp nonce signature : Option String) → (secret : String) → Cache
      → VerifyResult × Cache
  check_headers checked_ms now_ms skew req (some timestamp) (some nonce) (some signature) secret
        cache =
      check_time checked_ms now_ms skew req timestamp nonce signature secret cache
  check_headers checked_ms now_ms skew req _ _ _ secret cache =
      (refused missing_signature_headers, cache)

  unfoldable pub verify_internal_signature :
      (checked_ms now_ms : ℕ)
      → Request
      → (secret : String) → (max_skew_seconds : ℕ) → Cache
      → VerifyResult × Cache
  unfolding check_headers check_time check_signature
  verify_internal_signature checked_ms now_ms req secret max_skew_seconds cache =
      check_headers checked_ms now_ms (effective_skew max_skew_seconds) req
        (given (first_header (req.headers timestamp_header)))
        (given (first_header (req.headers nonce_header)))
        (given (first_header (req.headers signature_header))) secret cache
