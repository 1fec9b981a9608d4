-- ===== src/Traffic/Coupon.antt =====
-- Authorization codes and registration tickets, as one kind of thing: which command issues one,
-- which redeems one, and what Redis holds for it.
use kisauth.Base.{
  ℕ, ◌≤◌, Bool, false, String, Option, none, some, List, [], ◌∷◌, ◌≡◌, arith, str_eq, if◌then◌else◌,
  All,
}
use kisauth.Base.Texts.{◌++◌}
use kisauth.Keys.{
  Space, prefix, str_eq-prefix, challenges, codes, tickets, sessions, limits, nonces,
}
use kisauth.Records.{Stored, code, ticket}
use kisauth.Traffic.{
  Command, set_challenge, drop_challenge, issue_code, redeem_code, issue_ticket, redeem_ticket,
  set_session, drop_session, hit, claim_nonce, Reply, redeemed, ticketed, key_of,
}
use kisauth.Traffic.Trace.{Trace, InOrder}

pub data Coupon : Type 0 where
  authorization registration : Coupon

abbrev pub space : Coupon → Space
space authorization = codes
space registration = tickets

abbrev pub coupon_key : Coupon → String → String
coupon_key k c = prefix (space k) ++ c

abbrev pub issues : Coupon → String → Command → Bool
issues authorization c (issue_code d _ _) = str_eq d c
issues registration c (issue_ticket d _ _) = str_eq d c
issues _ c _ = false

abbrev pub redeems : Coupon → String → Command → Bool
redeems authorization c (redeem_code d) = str_eq d c
redeems registration c (redeem_ticket d) = str_eq d c
redeems _ c _ = false

-- A value of the kind that is kept for a coupon.
abbrev pub held : Coupon → Option Stored → List Stored
held authorization (some (code p)) = code p ∷ []
held registration (some (ticket p)) = ticket p ∷ []
held _ _ = []

-- What a reply hands out.
abbrev pub paid : Reply → List Stored
paid (redeemed (some p)) = code p ∷ []
paid (ticketed (some p)) = ticket p ∷ []
paid _ = []

abbrev pub NotReissued : Coupon → String → Trace → Type 0
NotReissued k c = All (λ e. issues k c e.1 ≡ false)

-- The time at which a coupon is first presented.
unfoldable pub first_redemption : Coupon → String → Trace → Option ℕ
first_redemption k c [] = none
first_redemption k c ((now, cmd) ∷ rest) =
    if redeems k c cmd then some now else first_redemption k c rest

pub first_redemption-later :
    (k : Coupon) (c : String) (trace : Trace) (t t' : ℕ)
    → InOrder t trace
    → first_redemption k c trace ≡ some t'
    → t ≤ t'
unfolding first_redemption
first_redemption-later k c [] t t' o e = ground arith
first_redemption-later k c ((now, cmd) ∷ rest) t t' o e =
    ground (arith, first_redemption-later k c rest now t')

-- A command whose key is the coupon's issues it or redeems it.
pub key_of-ne :
    (k : Coupon) (c : String) (cmd : Command)
    → redeems k c cmd ≡ false
    → issues k c cmd ≡ false
    → str_eq (key_of cmd) (coupon_key k c) ≡ false
unfolding key_of
key_of-ne authorization c (issue_code d _ _) e i = rw (str_eq-prefix codes codes d c) i
key_of-ne authorization c (redeem_code d) e i = rw (str_eq-prefix codes codes d c) e
key_of-ne authorization c (issue_ticket d _ _) e i = str_eq-prefix tickets codes d c
key_of-ne authorization c (redeem_ticket d) e i = str_eq-prefix tickets codes d c
key_of-ne registration c (issue_ticket d _ _) e i = rw (str_eq-prefix tickets tickets d c) i
key_of-ne registration c (redeem_ticket d) e i = rw (str_eq-prefix tickets tickets d c) e
key_of-ne registration c (issue_code d _ _) e i = str_eq-prefix codes tickets d c
key_of-ne registration c (redeem_code d) e i = str_eq-prefix codes tickets d c
key_of-ne authorization c (set_challenge id _ _) e i = str_eq-prefix challenges codes id c
key_of-ne registration c (set_challenge id _ _) e i = str_eq-prefix challenges tickets id c
key_of-ne authorization c (drop_challenge id) e i = str_eq-prefix challenges codes id c
key_of-ne registration c (drop_challenge id) e i = str_eq-prefix challenges tickets id c
key_of-ne authorization c (set_session id _ _) e i = str_eq-prefix sessions codes id c
key_of-ne registration c (set_session id _ _) e i = str_eq-prefix sessions tickets id c
key_of-ne authorization c (drop_session id) e i = str_eq-prefix sessions codes id c
key_of-ne registration c (drop_session id) e i = str_eq-prefix sessions tickets id c
key_of-ne authorization c (hit scope identifier _ _) e i = str_eq-prefix limits codes _ c
key_of-ne registration c (hit scope identifier _ _) e i = str_eq-prefix limits tickets _ c
key_of-ne authorization c (claim_nonce nonce _) e i = str_eq-prefix nonces codes nonce c
key_of-ne registration c (claim_nonce nonce _) e i = str_eq-prefix nonces tickets nonce c
