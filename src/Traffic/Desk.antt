-- ===== src/Traffic/Desk.antt =====
-- What the stores of src/redis/challenge-store.ts and src/oauth/oauth-session.store.ts promise,
-- without keys, prefixes and Redis: four dictionaries whose entries expire. A dictionary is told by
-- what it has under a name at a time.
use kisauth.Base.{
  ℕ, ◌+◌, ◌*◌, Bool, true, false, String, Option, none, some, List, [], ◌∷◌, ltb, str_eq,
  if◌then◌else◌, ◌≡◌, ◌≤◌,
}
use kisauth.Records.{
  ChallengeRecord, AuthorizationCodePayload, RegistrationTicketPayload, OAuthSession,
}
use kisauth.Traffic.{
  Command, set_challenge, drop_challenge, issue_code, redeem_code, issue_ticket, redeem_ticket,
  set_session, drop_session, hit, claim_nonce, Reply, done, redeemed, ticketed,
}
use kisauth.Traffic.Trace.{Trace}

abbrev pub Dict : Type 0 → Type 0
Dict V = ℕ → String → Option V

module _ {V : Type 0} where
  -- An entry for so many seconds from now.
  abbrev pub put : (now : ℕ) → (name : String) → V → (seconds : ℕ) → Dict V → Dict V
  put now name v seconds dict t n =
      if str_eq name n then (if ltb t (now + seconds * 1000) then some v else none) else dict t n

  abbrev pub drop : (name : String) → Dict V → Dict V
  drop name dict t n = if str_eq name n then none else dict t n

pub record Desk : Type 0 where
  pub challenges : Dict ChallengeRecord
  pub codes : Dict AuthorizationCodePayload
  pub tickets : Dict RegistrationTicketPayload
  pub sessions : Dict OAuthSession

-- From a time on, two desks have the same under every name.
pub record SameFrom (t₀ : ℕ) (d e : Desk) : Type 0 where
  pub same_challenges : (t : ℕ) (id : String) → t₀ ≤ t → d.challenges t id ≡ e.challenges t id
  pub same_codes : (t : ℕ) (c : String) → t₀ ≤ t → d.codes t c ≡ e.codes t c
  pub same_tickets : (t : ℕ) (c : String) → t₀ ≤ t → d.tickets t c ≡ e.tickets t c
  pub same_sessions : (t : ℕ) (id : String) → t₀ ≤ t → d.sessions t id ≡ e.sessions t id

-- A code or a ticket is handed out and dropped at once. Counters and nonces are not kept here.
abbrev pub serve : ℕ → Command → Desk → Reply × Desk
serve now (set_challenge id v s) d = (done, record d { challenges = put now id v s d.challenges })
serve now (drop_challenge id) d = (done, record d { challenges = drop id d.challenges })
serve now (issue_code c v s) d = (done, record d { codes = put now c v s d.codes })
serve now (redeem_code c) d = (redeemed (d.codes now c), record d { codes = drop c d.codes })
serve now (issue_ticket c v s) d = (done, record d { tickets = put now c v s d.tickets })
serve now (redeem_ticket c) d =
    (ticketed (d.tickets now c), record d { tickets = drop c d.tickets })
serve now (set_session id v s) d = (done, record d { sessions = put now id v s d.sessions })
serve now (drop_session id) d = (done, record d { sessions = drop id d.sessions })
serve now (hit _ _ _ _) d = (done, d)
serve now (claim_nonce _ _) d = (done, d)

abbrev pub at_desk : Command → Bool
at_desk (hit _ _ _ _) = false
at_desk (claim_nonce _ _) = false
at_desk _ = true

abbrev pub serve_all : Trace → Desk → Desk
serve_all [] d = d
serve_all ((now, c) ∷ rest) d = serve_all rest (serve now c d).1

-- The replies of a desk to the commands that concern it.
abbrev pub replies : Trace → Desk → List Reply
replies [] d = []
replies ((now, c) ∷ rest) d =
    let later = replies rest (serve now c d).1 in
    if at_desk c then (serve now c d).0 ∷ later else later
