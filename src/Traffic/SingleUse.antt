-- ===== src/Traffic/SingleUse.antt =====
-- A code or a ticket is redeemed at most once, however redemptions and other commands interleave
-- (consumeAuthorizationCode and consumeRegistrationTicket of src/redis/challenge-store.ts).
use kisauth.Base.{
  Bool, ℕ, ◌≤◌, true, false, String, Option, none, some, List, [], ◌∷◌, ◌++◌, ◌≡◌, refl, ◌∙◌, ap,
  arith, eq_iff, if◌then◌else◌, inl, inr, Bool-cases, Option-cases, ◌+◌, ◌*◌, ltb, eq_refl,
}
use kisauth.Records.{
  AuthorizationCodePayload, RegistrationTicketPayload, code, ticket, Stored, as_code, as_ticket,
  ◌>>=◌,
}
use kisauth.Redis.{Redis}
use kisauth.Challenge.{
  consume_authorization_code, consume_registration_ticket, issue_authorization_code,
  issue_registration_ticket,
}
use kisauth.Challenge.Consume.{get_later, consume_script_reply, consume_script_gone}
use kisauth.Traffic.{Command, redeem_code, redeem_ticket, redeemed, ticketed, step, step_frame}
use mathlib.Core.List.{append-nil}
use kisauth.Traffic.Trace.{Trace, InOrder}
use kisauth.Traffic.Coupon.{
  Coupon, authorization, registration, coupon_key, issues, redeems, held, paid, NotReissued,
  first_redemption, first_redemption-later, key_of-ne,
}

module _ (r : Redis) where
  open r use {State, get, get-set_ex}

  -- All that a run hands out for a coupon, in order.
  unfoldable pub wins : Coupon → String → Trace → State → List Stored
  wins k c [] σ = []
  wins k c ((now, cmd) ∷ rest) σ =
      let (reply, σ') = step r now cmd σ in
      let later = wins k c rest σ' in if redeems k c cmd then paid reply ++ later else later

  -- What Redis holds for a coupon when it is first presented.
  abbrev pub prize : Coupon → String → State → Option ℕ → List Stored
  prize k c σ none = []
  prize k c σ (some t) = held k (get t (coupon_key k c) σ)

  redeem_gone :
      (k : Coupon) (now t : ℕ) (c : String) (cmd : Command) (σ : State)
      → now ≤ t
      → redeems k c cmd ≡ true
      → get t (coupon_key k c) (step r now cmd σ).1 ≡ none
  unfolding step consume_authorization_code consume_registration_ticket
  redeem_gone authorization now t c (redeem_code d) σ h e =
      let same : d ≡ c = (eq_iff d c).0 e in
      rw (← same) (consume_script_gone r now t (coupon_key authorization d) σ h)
  redeem_gone registration now t c (redeem_ticket d) σ h e =
      let same : d ≡ c = (eq_iff d c).0 e in
      rw (← same) (consume_script_gone r now t (coupon_key registration d) σ h)
  redeem_gone _ now t c _ σ h e = ground arith

  paid_code : (v : Option Stored) → paid (redeemed (v >>= as_code)) ≡ held authorization v
  paid_code v = ground arith

  paid_ticket : (v : Option Stored) → paid (ticketed (v >>= as_ticket)) ≡ held registration v
  paid_ticket v = ground arith

  redeem_reply :
      (k : Coupon) (now : ℕ) (c : String) (cmd : Command) (σ : State)
      → redeems k c cmd ≡ true
      → paid (step r now cmd σ).0 ≡ held k (get now (coupon_key k c) σ)
  unfolding step consume_authorization_code consume_registration_ticket
  redeem_reply authorization now c (redeem_code d) σ e =
      let same : d ≡ c = (eq_iff d c).0 e in
      rw (← same, consume_script_reply r now (coupon_key authorization d) σ) (paid_code _)
  redeem_reply registration now c (redeem_ticket d) σ e =
      let same : d ≡ c = (eq_iff d c).0 e in
      rw (← same, consume_script_reply r now (coupon_key registration d) σ) (paid_ticket _)
  redeem_reply _ now c _ σ e = ground arith

  module _ (k : Coupon) (c : String) where
    -- Any other command leaves the coupon as it is, unless it issues it anew.
    pass_by :
        (now t : ℕ) (cmd : Command) (σ : State)
        → now ≤ t
        → redeems k c cmd ≡ false
        → issues k c cmd ≡ false
        → get t (coupon_key k c) (step r now cmd σ).1 ≡ get t (coupon_key k c) σ
    pass_by now t cmd σ h e i = step_frame r now t cmd σ (coupon_key k c) h (key_of-ne k c cmd e i)

    missing_stays :
        (now : ℕ) (cmd : Command) (σ : State)
        → issues k c cmd ≡ false
        → get now (coupon_key k c) σ ≡ none
        → get now (coupon_key k c) (step r now cmd σ).1 ≡ none
    missing_stays now cmd σ i missing = elim (Bool-cases (redeems k c cmd)) [
      | inl e ↦ redeem_gone k now now c cmd σ (omega arith) e
      | inr e ↦ pass_by now now cmd σ (omega arith) e i ∙ missing
    ]

    held-none : (v : Option Stored) → v ≡ none → held k v ≡ []
    held-none v e = ground arith

    wins-nil :
        (trace : Trace) (σ : State) (t : ℕ)
        → InOrder t trace
        → NotReissued k c trace
        → get t (coupon_key k c) σ ≡ none
        → wins k c trace σ ≡ []
    unfolding wins
    wins-nil [] σ t o n missing = refl
    wins-nil ((now, cmd) ∷ rest) σ t (h, o) (i, n) missing =
        let gone = get_later r t now (coupon_key k c) σ h missing in
        let later = wins-nil rest (step r now cmd σ).1 now o n (missing_stays now cmd σ i gone) in
        elim (Bool-cases (redeems k c cmd)) [
          | inl e ↦ rw (e, redeem_reply k now c cmd σ e, held-none _ gone) later
          | inr e ↦ rw e later
        ]

    prize_kept :
        (now : ℕ) (rest : Trace) (σ σ' : State)
        → InOrder now rest
        → ((t : ℕ) → now ≤ t → get t (coupon_key k c) σ' ≡ get t (coupon_key k c) σ)
        → prize k c σ' (first_redemption k c rest) ≡ prize k c σ (first_redemption k c rest)
    prize_kept now rest σ σ' o same = elim (Option-cases (first_redemption k c rest)) [
      | inl e ↦ rw e
      | inr (t, e) ↦ rw e (ap (held k) (same t (first_redemption-later k c rest now t o e)))
    ]

    -- In any run that does not issue the coupon again, its redemptions together hand out what
    -- Redis held for it when it was first presented, once, and nothing more.
    pub wins_exact :
        (trace : Trace) (σ : State) (t : ℕ)
        → InOrder t trace
        → NotReissued k c trace
        → wins k c trace σ ≡ prize k c σ (first_redemption k c trace)
    unfolding wins first_redemption
    wins_exact [] σ t o n = refl
    wins_exact ((now, cmd) ∷ rest) σ t (h, o) (i, n) = elim (Bool-cases (redeems k c cmd)) [
      | inl e ↦
          rw
            (
              e,
              redeem_reply k now c cmd σ e,
              wins-nil rest (step r now cmd σ).1 now o n
                  (redeem_gone k now now c cmd σ (omega arith) e),
            )
            (append-nil _)
      | inr e ↦ rw e (
          wins_exact rest (step r now cmd σ).1 now o n
          ∙ prize_kept now rest σ (step r now cmd σ).1 o (λ t' h'. pass_by now t' cmd σ h' e i))
    ]

-- The value, if it is presented at all and before the deadline.
abbrev pub in_time : Option ℕ → ℕ → Stored → List Stored
in_time none deadline v = []
in_time (some t) deadline v = if ltb t deadline then v ∷ [] else []

module _ (r : Redis) where
  open r use {State, get, set_ex, get-set_ex}

  prize_of_new :
      (k : Coupon) (c : String) (trace : Trace) (now seconds : ℕ) (v : Stored) (σ : State)
      → held k (some v) ≡ v ∷ []
      → InOrder now trace
      → prize r k c (set_ex now (coupon_key k c) v seconds σ) (first_redemption k c trace)
        ≡ in_time (first_redemption k c trace) (now + seconds * 1000) v
  prize_of_new k c trace now seconds v σ kind o = elim (Option-cases (first_redemption k c trace)) [
    | inl e ↦ rw e
    | inr (t, e) ↦
        rw
          (
            e,
            get-set_ex now t (coupon_key k c) (coupon_key k c) v seconds σ
                (first_redemption-later k c trace now t o e),
            eq_refl (coupon_key k c),
          )
          (held_if (ltb t (now + seconds * 1000)))
  ]
    where
      held_if : (b : Bool) → held k (if b then some v else none) ≡ (if b then v ∷ [] else [])
      held_if true = kind
      held_if false = ground arith

  -- However commands interleave after an authorization code is issued, and however often the code
  -- is presented, its payload is handed out exactly once if it is first presented before its
  -- lifetime ends, and never otherwise, provided that the
  -- commands run in the order of their times and the code is not issued again.
  pub code_single_use :
      (c : String) (payload : AuthorizationCodePayload) (trace : Trace) (now ttl : ℕ) (σ : State)
      → InOrder now trace
      → NotReissued authorization c trace
      → wins r authorization c trace (issue_authorization_code r now c payload ttl σ).1
        ≡ in_time (first_redemption authorization c trace) (now + ttl * 1000) (code payload)
  unfolding issue_authorization_code
  code_single_use c payload trace now ttl σ o n =
      wins_exact r authorization c trace _ now o n
      ∙ prize_of_new authorization c trace now ttl (code payload) σ refl o

  -- However commands interleave after a registration ticket is issued, and however often the ticket
  -- is presented, its payload is handed out exactly once if it is first presented before its
  -- lifetime ends, and never otherwise, provided that the
  -- commands run in the order of their times and the ticket is not issued again.
  pub ticket_single_use :
      (c : String) (payload : RegistrationTicketPayload) (trace : Trace) (now ttl : ℕ) (σ : State)
      → InOrder now trace
      → NotReissued registration c trace
      → wins r registration c trace (issue_registration_ticket r now c payload ttl σ).1
        ≡ in_time (first_redemption registration c trace) (now + ttl * 1000) (ticket payload)
  unfolding issue_registration_ticket
  ticket_single_use c payload trace now ttl σ o n =
      wins_exact r registration c trace _ now o n
      ∙ prize_of_new registration c trace now ttl (ticket payload) σ refl o
