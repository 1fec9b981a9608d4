-- ===== src/LinkTicket/Genuine.antt =====
-- When verifyAndConsume of src/security/link-ticket.ts accepts a ticket, and what it writes.
use kisauth.Base.{
  ℕ, ◌+◌, ◌*◌, ◌≤◌, ◌/◌, ◌<◌, true, String, Option, none, some, [], ◌∷◌, ◌≡◌, ◌↔◌, arith, eq_iff,
  eq_refl, leb, ◌-◌, false, if◌then◌else◌,
}
use kisauth.Base.Int.{pos}
use kisauth.Base.Number.{Number, whole}
use kisauth.Base.Texts.{◌++◌}
use kisauth.Records.{number}
use kisauth.Json.{Json}
use kisauth.Keys.{nonce_prefix}
use kisauth.Redis.{Redis}
use kisauth.LinkTicket.{
  LinkTicketPayload, ok, split, same_bytes, read_payload, claim, verify_and_consume, verify_parts,
  sign, max_millisecond,
}

pub same_bytes_iff : (s t : String) → (same_bytes s t ≡ true) ↔ (s ≡ t)
unfolding same_bytes
same_bytes_iff s t = (λ h. ground (arith, eq_iff s t), λ e. rw e (ground (arith, eq_refl t)))

module _ (r : Redis) (hmac : String → String → String) (parse : String → Option Json) where
  open r use {State, get, set_ex, set_nx, set_nx_lem}

  -- A ticket of two parts, signed under the secret, that carries a user, a nonce that is not
  -- claimed and a whole second of expiry that is still to come and that Redis can count.
  pub record IsGenuine (now_ms at_ms : ℕ) (ticket secret : String) (σ : State) (user : String)
      : Type 0 where
    pub encoded : String
    pub signature : String
    pub value : Json
    pub payload : LinkTicketPayload
    pub exp : ℕ
    pub parts : split b'.' ticket ≡ encoded ∷ signature ∷ []
    pub signed : hmac secret encoded ≡ signature
    pub decoded : parse encoded ≡ some value
    pub fields : read_payload value ≡ some payload
    pub for_user : payload.kis_user_id ≡ user
    pub expires : payload.exp ≡ whole (pos exp)
    pub unexpired : now_ms / 1000 < exp
    pub fits : at_ms + (exp - now_ms / 1000) * 1000 ≤ max_millisecond
    pub unclaimed : get at_ms (nonce_prefix ++ payload.nonce) σ ≡ none

  abbrev pub nonce_key : LinkTicketPayload → String
  nonce_key payload = nonce_prefix ++ payload.nonce

  at_least_one : (e now : ℕ) → now < e → (if leb (e - now) 1 then 1 else e - now) ≡ e - now
  at_least_one e now h = ground arith

  claim_complete :
      (now_ms at_ms : ℕ) (payload : LinkTicketPayload) (e : ℕ) (σ : State)
      → payload.exp ≡ whole (pos e)
      → now_ms / 1000 < e
      → at_ms + (e - now_ms / 1000) * 1000 ≤ max_millisecond
      → get at_ms (nonce_key payload) σ ≡ none
      → claim r hmac parse now_ms at_ms payload σ ≡ (
        ok payload.kis_user_id,
        set_ex at_ms (nonce_key payload) (number 1) (e - now_ms / 1000) σ,
      )
  unfolding claim
  claim_complete now_ms at_ms payload e σ same live fits unclaimed =
      let later : leb e (now_ms / 1000) ≡ false = ground arith in
      let set : leb (at_ms + (e - now_ms / 1000) * 1000) max_millisecond ≡ true = ground arith in
      rw (
        same,
        later,
        at_least_one e (now_ms / 1000) live,
        set,
        set_nx_lem at_ms (nonce_key payload) (number 1) (e - now_ms / 1000) σ,
        unclaimed,
      )

  module _ (now_ms at_ms : ℕ) (ticket secret : String) (σ : State) where
    -- What an accepted ticket leaves in Redis.
    pub verify_of_IsGenuine :
        (user : String) (g : IsGenuine now_ms at_ms ticket secret σ user)
        → verify_and_consume r hmac parse now_ms at_ms ticket secret σ
          ≡ (ok user, set_ex at_ms (nonce_key g.payload) (number 1) (g.exp - now_ms / 1000) σ)
    unfolding verify_and_consume verify_parts sign
    verify_of_IsGenuine user g = rw (
      g.parts,
      (same_bytes_iff _ _).1 g.signed,
      g.decoded,
      g.fields,
      claim_complete now_ms at_ms g.payload g.exp σ g.expires g.unexpired g.fits g.unclaimed,
      g.for_user,
    )
