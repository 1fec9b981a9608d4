-- ===== src/Traffic/Shown.antt =====
-- The one Redis behind src/redis/challenge-store.ts, src/oauth/oauth-session.store.ts,
-- src/security/rate-limit.ts and src/security/link-ticket.ts shows each of four dictionaries: what a
-- command does to the keys of one kind.
use kisauth.Base.{ℕ, ◌≤◌, false, String, Option, some, ◌≡◌, refl, ap, ◌∙◌, arith, str_eq, eq_iff}
use kisauth.Base.Texts.{◌++◌}
use kisauth.Records.{
  Stored, challenge, code, ticket, session, as_challenge, as_code, as_ticket, as_session, ◌>>=◌,
}
use kisauth.Keys.{
  Space, challenges, codes, tickets, sessions, limits, nonces, prefix, same, str_eq-prefix,
  str_eq_prefix,
}
use kisauth.Redis.{Redis}
use kisauth.Session
use kisauth.Session.{get_session}
use kisauth.Challenge.{
  consume_script, consume_authorization_code, consume_registration_ticket, create_challenge,
  issue_authorization_code, issue_registration_ticket, delete_challenge,
}
use kisauth.Challenge.Consume.{get_later}
use kisauth.Traffic.{
  Command, set_challenge, drop_challenge, issue_code, redeem_code, issue_ticket, redeem_ticket,
  set_session, drop_session, hit, claim_nonce, key_of, step, step_frame,
}
use kisauth.Traffic.Desk.{Dict, put, drop, Desk, serve}

-- The kind of record that a command may change, and what follows the prefix in its key.
abbrev space_of : Command → Space
space_of (set_challenge _ _ _) = challenges
space_of (drop_challenge _) = challenges
space_of (issue_code _ _ _) = codes
space_of (redeem_code _) = codes
space_of (issue_ticket _ _ _) = tickets
space_of (redeem_ticket _) = tickets
space_of (set_session _ _ _) = sessions
space_of (drop_session _) = sessions
space_of (hit _ _ _ _) = limits
space_of (claim_nonce _ _) = nonces

abbrev name_of : Command → String
name_of (set_challenge id _ _) = id
name_of (drop_challenge id) = id
name_of (issue_code c _ _) = c
name_of (redeem_code c) = c
name_of (issue_ticket c _ _) = c
name_of (redeem_ticket c) = c
name_of (set_session id _ _) = id
name_of (drop_session id) = id
name_of (hit scope identifier _ _) = scope ++ (":" ++ identifier)
name_of (claim_nonce nonce _) = nonce

key_of-prefix : (c : Command) → key_of c ≡ prefix (space_of c) ++ name_of c
unfolding key_of
key_of-prefix (set_challenge _ _ _) = refl
key_of-prefix (drop_challenge _) = refl
key_of-prefix (issue_code _ _ _) = refl
key_of-prefix (redeem_code _) = refl
key_of-prefix (issue_ticket _ _ _) = refl
key_of-prefix (redeem_ticket _) = refl
key_of-prefix (set_session _ _ _) = refl
key_of-prefix (drop_session _) = refl
key_of-prefix (hit _ _ _ _) = refl
key_of-prefix (claim_nonce _ _) = refl

module _ (r : Redis) where
  open r use {State, get, set_ex, del, get-set_ex, get-del}

  module _ {V : Type 0} (b : Space) (as_v : Stored → Option V) where
    -- From a time on, the keys of a kind read as a dictionary.
    abbrev pub Shows : ℕ → Dict V → State → Type 0
    Shows t₀ dict σ =
        (t : ℕ) (name : String) → t₀ ≤ t → (get t (prefix b ++ name) σ >>= as_v) ≡ dict t name

    own_key : (x y : String) → str_eq (prefix b ++ x) (prefix b ++ y) ≡ str_eq x y
    own_key x y = str_eq_prefix (prefix b) x y

    other-Shows :
        (now : ℕ) (c : Command) (dict : Dict V) (σ : State)
        → same (space_of c) b ≡ false
        → Shows now dict σ
        → Shows now dict (step r now c σ).1
    other-Shows now c dict σ differ shows t name h =
        ap (λ o. o >>= as_v)
          (step_frame r now t c σ (prefix b ++ name) h
            (rw (key_of-prefix c) (str_eq-prefix (space_of c) b (name_of c) name ∙ rw differ)))
        ∙ shows t name h

    put-Shows :
        (now : ℕ) (id : String) (v : V) (stored : Stored) (seconds : ℕ) (dict : Dict V) (σ : State)
        → as_v stored ≡ some v
        → Shows now dict σ
        → Shows now (put now id v seconds dict) (set_ex now (prefix b ++ id) stored seconds σ)
    put-Shows now id v stored seconds dict σ reads shows t name h = ground (
      arith,
      get-set_ex now t (prefix b ++ id) (prefix b ++ name) stored seconds σ h,
      own_key id name,
      shows t name h,
      reads,
    )

    drop-Shows :
        (now : ℕ) (id : String) (dict : Dict V) (σ : State)
        → Shows now dict σ
        → Shows now (drop id dict) (del (prefix b ++ id) σ)
    drop-Shows now id dict σ shows t name h =
        ground
          (arith, get-del t (prefix b ++ id) (prefix b ++ name) σ, own_key id name, shows t name h)

    consume-Shows :
        (now : ℕ) (id : String) (dict : Dict V) (σ : State)
        → Shows now dict σ
        → Shows now (drop id dict) (consume_script r now (prefix b ++ id) σ).1
    consume-Shows now id dict σ shows t name h = ground (
      arith,
      get-del t (prefix b ++ id) (prefix b ++ name) σ,
      own_key id name,
      shows t name h,
      eq_iff id name,
      get_later r now t (prefix b ++ id) σ h,
    )

  pub challenges_step :
      (now : ℕ) (cmd : Command) (σ : State) (d : Desk)
      → Shows challenges as_challenge now d.challenges σ
      → Shows challenges as_challenge now (serve now cmd d).1.challenges (step r now cmd σ).1
  unfolding step create_challenge delete_challenge
  challenges_step now (set_challenge name v s) σ d i =
      put-Shows challenges as_challenge now name v (challenge v) s d.challenges σ refl i
  challenges_step now (drop_challenge name) σ d i =
      drop-Shows challenges as_challenge now name d.challenges σ i
  challenges_step now other σ d i =
      other-Shows challenges as_challenge now other d.challenges σ refl i

  pub codes_step :
      (now : ℕ) (cmd : Command) (σ : State) (d : Desk)
      → Shows codes as_code now d.codes σ
      → Shows codes as_code now (serve now cmd d).1.codes (step r now cmd σ).1
  unfolding step issue_authorization_code consume_authorization_code
  codes_step now (issue_code name v s) σ d i =
      put-Shows codes as_code now name v (code v) s d.codes σ refl i
  codes_step now (redeem_code name) σ d i = consume-Shows codes as_code now name d.codes σ i
  codes_step now other σ d i = other-Shows codes as_code now other d.codes σ refl i

  pub tickets_step :
      (now : ℕ) (cmd : Command) (σ : State) (d : Desk)
      → Shows tickets as_ticket now d.tickets σ
      → Shows tickets as_ticket now (serve now cmd d).1.tickets (step r now cmd σ).1
  unfolding step issue_registration_ticket consume_registration_ticket
  tickets_step now (issue_ticket name v s) σ d i =
      put-Shows tickets as_ticket now name v (ticket v) s d.tickets σ refl i
  tickets_step now (redeem_ticket name) σ d i =
      consume-Shows tickets as_ticket now name d.tickets σ i
  tickets_step now other σ d i = other-Shows tickets as_ticket now other d.tickets σ refl i

  pub sessions_step :
      (now : ℕ) (cmd : Command) (σ : State) (d : Desk)
      → Shows sessions as_session now d.sessions σ
      → Shows sessions as_session now (serve now cmd d).1.sessions (step r now cmd σ).1
  unfolding step Session.delete
  sessions_step now (set_session name v s) σ d i =
      put-Shows sessions as_session now name v (session v) s d.sessions σ refl i
  sessions_step now (drop_session name) σ d i =
      drop-Shows sessions as_session now name d.sessions σ i
  sessions_step now other σ d i = other-Shows sessions as_session now other d.sessions σ refl i
