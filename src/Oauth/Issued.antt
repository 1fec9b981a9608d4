-- ===== src/Oauth/Issued.antt =====
-- The authorization code that src/oauth/oauth-outcome.service.ts issues.
use kisauth.Base.{
  ℕ, ◌+◌, ◌≤◌, false, String, Option, some, ◌≡◌, arith, Option-cases, Bool-cases, inl, inr, ap, sym,
  ◌∙◌, eq_refl, str_eq, ltb, ◌*◌,
}
use kisauth.Base.Texts.{◌++◌}
use kisauth.Js.{Js}
use kisauth.Redis.{Redis}
use kisauth.Records.{Purpose, ChallengeRecord, challenge, as_challenge, ◌>>=◌}
use kisauth.Keys.{challenge_prefix, session_prefix, challenges, sessions, str_eq-prefix}
use kisauth.Challenge.{create_challenge, get_challenge}
use kisauth.Session.{delete}
use kisauth.Service.{Config, World, Schedule}
use kisauth.Service.Laws.{Returns, reply_inj}
use kisauth.Oauth.{delete_session}
use kisauth.Oauth.Outcome.{Randoms, Confirmed, confirm, new_challenge, find_challenge}

module _ (js : Js) (uuid : String → Option String) {r : Redis} (sch : Schedule r) (config : Config)
    (random : Randoms) (ip : String) where
  abbrev pub challenge_key : String
  challenge_key = challenge_prefix ++ random.challenge_id

  -- Steps run in the order of their times, and nothing else writes the key of the new challenge.
  pub record IsPrivate : Type 0 where
    pub ordered : (j k : ℕ) → j ≤ k → sch.at j ≤ sch.at k
    pub untouched :
        (k t : ℕ) (w : World r)
        → r.get t challenge_key (sch.gap k w).redis ≡ r.get t challenge_key w.redis

  abbrev pub made_challenge : Purpose → (client_id user identity : String) → ChallengeRecord
  made_challenge purpose client_id user identity = record {
    purpose = purpose;
    client_id = client_id;
    kis_user_id = some user;
    auth_identity_id = some identity;
    attempt_count = 0;
    max_attempts = config.challenge_max_attempts;
    used = false;
  }

  -- The key holds the challenge or nothing, from the time on.
  abbrev pub HoldsAtMost : ℕ → ChallengeRecord → r.State → Type 0
  HoldsAtMost from c σ =
      (t : ℕ) (found : ChallengeRecord)
      → from ≤ t
      → get_challenge r t random.challenge_id σ ≡ some found
      → found ≡ c

  pub new_challenge-HoldsAtMost :
      (k : ℕ) (purpose : Purpose) (client_id user identity : String) (w w' : World r)
      → Returns
          (new_challenge js uuid sch config random ip k purpose client_id user identity)
          w
          tt
          w'
      → HoldsAtMost (sch.at k) (made_challenge purpose client_id user identity) w'.redis
  unfolding new_challenge create_challenge get_challenge
  new_challenge-HoldsAtMost k purpose client_id user identity w w' h t found later e =
      let c = made_challenge purpose client_id user identity in
      let σ = (sch.gap k w).redis in
      let stored = ap (λ x. x.1.redis) (sym h) in
      let read =
        r.get-set_ex (sch.at k) t challenge_key challenge_key (challenge c)
          config.challenge_ttl_seconds σ later in
      let at_key = ap (r.get t challenge_key) stored ∙ read in
      elim (Bool-cases (ltb t (sch.at k + config.challenge_ttl_seconds * 1000))) [
        | inl live ↦ ground (arith, at_key, eq_refl challenge_key)
        | inr over ↦ ground (arith, at_key, eq_refl challenge_key)
      ]

  pub HoldsAtMost-gap :
      (p : IsPrivate) (k from : ℕ) (c : ChallengeRecord) (w : World r)
      → HoldsAtMost from c w.redis
      → HoldsAtMost from c (sch.gap k w).redis
  unfolding get_challenge
  HoldsAtMost-gap p k from c w holds t found later e =
      holds t found later (rw (p.untouched k t w) at e)

  pub delete_session-HoldsAtMost :
      (p : IsPrivate) (k from : ℕ) (c : ChallengeRecord) (id : String) (w w' : World r)
      → Returns (delete_session js sch config k id) w tt w'
      → HoldsAtMost from c w.redis
      → HoldsAtMost from c w'.redis
  unfolding delete_session delete get_challenge
  delete_session-HoldsAtMost p k from c id w w' h holds t found later e =
      let stored = ap (λ x. x.1.redis) (sym h) in
      let kept = r.get-del t (session_prefix ++ id) challenge_key (sch.gap k w).redis in
      let other : str_eq (session_prefix ++ id) challenge_key ≡ false =
        str_eq-prefix sessions challenges id random.challenge_id in
      let at_key : r.get t challenge_key w'.redis ≡ r.get t challenge_key w.redis =
        ap (r.get t challenge_key) stored ∙ (rw other at kept) ∙ p.untouched k t w in
      holds t found later (ap (λ x. x >>= as_challenge) (sym at_key) ∙ e)

  pub find_challenge_returns :
      (k : ℕ) (w w' : World r) (found : ChallengeRecord) (ids : Confirmed)
      → Returns (find_challenge js uuid sch config random ip k) w (found, ids) w'
      → (get_challenge r (sch.at k) random.challenge_id (sch.gap k w).redis ≡ some found)
        × (confirm found ≡ some ids)
  unfolding find_challenge
  find_challenge_returns k w w' found ids h =
      elim (Option-cases (get_challenge r (sch.at k) random.challenge_id (sch.gap k w).redis)) [
        | inl missing ↦ ground arith
        | inr (c, e) ↦ elim (Option-cases (confirm c)) [
          | inl refused ↦ ground arith
          | inr (i, e') ↦
              let same : ◌≡◌ {A = ChallengeRecord × Confirmed} (c, i) (found, ids) =
                reply_inj (ap (λ x. x.0) (rw (e, e', find_challenge) at h)) in
              (
                e ∙ ap (λ x. some x.0) same,
                (rw (ap (λ x. x.0) same) at e') ∙ ap (λ x. some x.1) same,
              )
        ]
      ]
