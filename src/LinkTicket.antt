-- ===== src/LinkTicket.antt =====
-- src/security/link-ticket.ts: the ticket that proves which KIS account a link is for.
pub mod Genuine
pub mod SingleUse
use Prim.Native.Char.{code}
use Prim.Native.String.{len}
use kisauth.Base.{
  ℕ, ◌+◌, ◌-◌, ◌*◌, ◌/◌, Bool, String, Option, none, some, List, [], ◌∷◌, ◌&&◌, ◌==◌, str_eq, leb,
  not, if◌then◌else◌,
}
use kisauth.Base.Int.{pos}
use kisauth.Base.Number.{Number, whole, num_leb}
use kisauth.Base.Texts.{◌++◌}
use kisauth.Records.{number}
use kisauth.Json.{Json, string_field, number_field}
use kisauth.Keys.{nonce_prefix}
use kisauth.Redis.{Redis}

pub record LinkTicketPayload : Type 0 where
  pub kis_user_id : String
  pub nonce : String
  pub exp : Number

pub data Reason : Type 0 where
  malformed signature_mismatch expired already_used : Reason

-- LinkTicketVerifyResult; `fault` is the error that Redis raises, which rejects the promise.
pub data VerifyResult : Type 0 where
  ok : (kis_user_id : String) → VerifyResult
  refused : Reason → VerifyResult
  fault : VerifyResult

-- `text.split(c)`; `cur` is the part that is being read.
unfoldable pub split_from : ℕ → String → String → List String
split_from c cur String.[] = cur ∷ []
split_from c cur (String.◌∷◌ ch rest) =
    let closed = split_from c "" rest in
    let longer = split_from c (cur ++ String.◌∷◌ ch String.[]) rest in
    if code ch == c then cur ∷ closed else longer

unfoldable pub split : ℕ → String → List String
unfolding split_from
split c text = split_from c "" text

-- `a.length === b.length && timingSafeEqual(a, b)` over the bytes of two texts.
unfoldable pub same_bytes : String → String → Bool
same_bytes expected given = len expected == len given && str_eq expected given

-- The three `typeof` tests on the parsed payload.
unfoldable pub read_payload : Json → Option LinkTicketPayload
read_payload value = elim (string_field "kisUserId" value) [
  | none ↦ none
  | some user ↦ elim (string_field "nonce" value) [
    | none ↦ none
    | some nonce ↦ elim (number_field "exp" value) [
      | none ↦ none
      | some exp ↦ some (record { kis_user_id = user; nonce = nonce; exp = exp })
    ]
  ]
]

-- `Math.max(1, exp - now)` as the seconds of SET, for an `exp` past `now`; Redis refuses a
-- number that is not whole.
abbrev pub remaining_ttl : Number → ℕ → Option ℕ
remaining_ttl (whole (pos exp)) now = some (if leb (exp - now) 1 then 1 else exp - now)
remaining_ttl _ now = none

-- The last millisecond that Redis can count, in 64 bits.
abbrev pub max_millisecond : ℕ
max_millisecond = 9223372036854775807

-- The seconds with which a SET at a time is done; Redis answers with an error if the key were to end
-- past the last millisecond.
abbrev pub settable : (at_ms : ℕ) → Option ℕ → Option ℕ
settable at_ms none = none
settable at_ms (some seconds) =
    if leb (at_ms + seconds * 1000) max_millisecond then some seconds else none

-- `hmac` is crypto's HMAC-SHA256 in hex; `parse` is base64url decoding and JSON.parse, `none`
-- where it throws. `now_ms` is what Date.now() reads; `at_ms` is the time of the SET, by the clock of Redis.
module _ (r : Redis) (hmac : String → String → String) (parse : String → Option Json) where
  open r use {State, set_nx}

  unfoldable pub sign : String → String → String
  sign secret encoded_payload = hmac secret encoded_payload

  abbrev claimed : Bool → LinkTicketPayload → VerifyResult
  claimed done payload = if done then ok payload.kis_user_id else refused already_used

  unfoldable pub claim : (now_ms at_ms : ℕ) → LinkTicketPayload → State → VerifyResult × State
  claim now_ms at_ms payload σ =
      if num_leb payload.exp (now_ms / 1000)
      then (refused expired, σ)
      else elim (settable at_ms (remaining_ttl payload.exp (now_ms / 1000))) [
        | none ↦ (fault, σ)
        | some seconds ↦
            let (done, σ') = set_nx at_ms (nonce_prefix ++ payload.nonce) (number 1) seconds σ in
            (claimed done payload, σ')
      ]

  unfoldable pub verify_parts :
      (now_ms at_ms : ℕ) → List String → String → State → VerifyResult × State
  verify_parts now_ms at_ms (encoded_payload ∷ signature ∷ []) secret σ =
      if not (same_bytes (sign secret encoded_payload) signature)
      then (refused signature_mismatch, σ)
      else elim (parse encoded_payload) [
        | none ↦ (refused malformed, σ)
        | some value ↦ elim (read_payload value) [
          | none ↦ (refused malformed, σ)
          | some payload ↦ claim now_ms at_ms payload σ
        ]
      ]
  verify_parts now_ms at_ms _ secret σ = (refused malformed, σ)

  unfoldable pub verify_and_consume :
      (now_ms at_ms : ℕ) → (ticket secret : String) → State → VerifyResult × State
  unfolding verify_parts claim sign
  verify_and_consume now_ms at_ms ticket secret σ =
      verify_parts now_ms at_ms (split b'.' ticket) secret σ
