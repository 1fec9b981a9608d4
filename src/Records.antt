-- ===== src/Records.antt =====
-- The records that the service keeps in Redis: the interfaces of src/redis/challenge-store.ts and
-- src/oauth/oauth-session.store.ts. A stored text is represented by the value that
-- JSON.stringify wrote and JSON.parse reads back; `number` is a text of digits, as INCR keeps it.
use kisauth.Base.{ℕ, Bool, String, Option, none, some}

-- A union of string literals in the source, and any text at run time: /authorize casts to it.
abbrev pub Purpose : Type 0
Purpose = String

pub record ChallengeRecord : Type 0 where
  pub purpose : Purpose
  pub client_id : String
  pub kis_user_id : Option String
  pub auth_identity_id : Option String
  pub attempt_count : ℕ
  pub max_attempts : ℕ
  pub used : Bool

pub record AuthorizationCodePayload : Type 0 where
  pub purpose : Purpose
  pub client_id : String
  pub kis_user_id : String
  pub auth_identity_id : String
  pub redirect_uri : String

pub record RegistrationTicketPayload : Type 0 where
  pub client_id : String
  pub purpose : Purpose
  pub provider : String
  pub provider_subject : String
  pub provider_email : Option String
  pub provider_email_verified : Bool
  pub partner_slug : Option String
  pub redirect_uri : String

pub record OAuthSession : Type 0 where
  pub client_id : String
  pub redirect_uri : String
  pub purpose : Purpose
  pub state : String
  pub nonce : String
  pub client_state : String
  pub code_verifier : Option String
  pub link_kis_user_id : Option String
  pub partner_slug : Option String

pub data Stored : Type 0 where
  challenge : ChallengeRecord → Stored
  code : AuthorizationCodePayload → Stored
  ticket : RegistrationTicketPayload → Stored
  session : OAuthSession → Stored
  number : ℕ → Stored

-- `JSON.parse(raw) as T`, for each T. A value of another kind never stands under the key that is
-- read; it is `none` here.
abbrev pub as_challenge : Stored → Option ChallengeRecord
as_challenge (challenge r) = some r
as_challenge _ = none

abbrev pub as_code : Stored → Option AuthorizationCodePayload
as_code (code r) = some r
as_code _ = none

abbrev pub as_ticket : Stored → Option RegistrationTicketPayload
as_ticket (ticket r) = some r
as_ticket _ = none

abbrev pub as_session : Stored → Option OAuthSession
as_session (session r) = some r
as_session _ = none

infixl 5 ◌>>=◌
abbrev pub ◌>>=◌ {ℓ κ} : {A : Type ℓ} {B : Type κ} → Option A → (A → Option B) → Option B
none >>= f = none
some a >>= f = f a
