-- ===== src/Oauth/Spent.antt =====
-- A session that src/oauth deletes stays deleted through the steps that follow.
use kisauth.Base.{
  ℕ, ◌≤◌, false, String, Option, none, List, ◌≡◌, refl, arith, Option-cases, inl, inr, ap, sym, ◌∙◌,
  eq_refl, str_eq, ◌+◌,
}
use kisauth.Base.Texts.{◌++◌}
use kisauth.Js.{Js}
use kisauth.Redis.{Redis}
use kisauth.Records.{Stored, Purpose, ChallengeRecord}
use kisauth.Keys.{
  Space, prefix, same, sessions, challenges, session_prefix, str_eq-prefix, codes, challenge_prefix,
}
use kisauth.Challenge.{create_challenge, get_challenge, positive, issue_authorization_code}
use kisauth.Session.{delete}
use kisauth.Events.{SecurityEvent}
use kisauth.Service.{Config, World, Schedule, emit}
use kisauth.Service.Laws.{Returns, bind_returns}
use kisauth.Oauth.{location, redirect, delete_session}
use kisauth.Oauth.Outcome.{
  Randoms, Confirmed, confirm, new_challenge, find_challenge, mark_used, issue_code,
  confirm_and_redirect,
}

-- The last step of a callback, at most.
abbrev pub last_step : ℕ
last_step = 16

module _ {r : Redis} (sch : Schedule r) (id : String) where
  abbrev pub session_key : String
  session_key = session_prefix ++ id

  -- Not before any step of the handler.
  abbrev pub IsAfter : ℕ → Type 0
  IsAfter t = (j : ℕ) → j ≤ last_step → sch.at j ≤ t

  -- Whoever asks for the session when the handler has ended finds none.
  abbrev pub IsGone : r.State → Type 0
  IsGone σ = (t : ℕ) → IsAfter t → r.get t session_key σ ≡ none

  -- Nothing that other handlers do in between creates this session: its name is random.
  abbrev pub IsLeftAlone : Type 0
  IsLeftAlone = (k : ℕ) (w : World r) → IsGone w.redis → IsGone (sch.gap k w).redis

  -- Writing a key of another kind.
  pub IsGone-set_ex :
      (k : ℕ) (a : Space) (x : String) (v : Stored) (seconds : ℕ) (σ : r.State)
      → k ≤ last_step
      → same a sessions ≡ false
      → IsGone σ
      → IsGone (r.set_ex (sch.at k) (prefix a ++ x) v seconds σ)
  IsGone-set_ex k a x v seconds σ h other gone t after =
      let apart : str_eq (prefix a ++ x) session_key ≡ false =
        str_eq-prefix a sessions x id ∙ rw other in
      r.get-set_ex (sch.at k) t (prefix a ++ x) session_key v seconds σ (after k h)
      ∙ rw apart (gone t after)

  pub emit-IsGone :
      (event : SecurityEvent) (w w' : World r)
      → Returns (emit event) w tt w'
      → IsGone w.redis
      → IsGone w'.redis
  emit-IsGone event w w' h gone t after =
      ap (λ x. r.get t session_key x.1.redis) (sym h) ∙ gone t after

  module _ (js : Js) (config : Config) where
    pub delete_session-IsGone :
        (k : ℕ) (w w' : World r)
        → Returns (delete_session js sch config k id) w tt w'
        → IsGone w'.redis
    unfolding delete_session delete
    delete_session-IsGone k w w' h t after =
        ap (λ x. r.get t session_key x.1.redis) (sym h)
        ∙ r.get-del t session_key session_key (sch.gap k w).redis
        ∙ rw (eq_refl session_key)

    pub redirect-IsGone :
        (status redirect_uri : String) (params : List (String × String)) (w w' : World r)
        (url : String)
        → Returns (redirect js sch config status redirect_uri params) w url w'
        → IsGone w.redis
        → IsGone w'.redis
    unfolding redirect
    redirect-IsGone status redirect_uri params w w' url h gone t after =
        elim (Option-cases (location js config.base_url status redirect_uri params)) [
          | inl bad ↦ ground arith
          | inr (made, e) ↦
              ap (λ x. r.get t session_key x.1.redis) (sym (rw (e, redirect) at h)) ∙ gone t after
        ]

    module _ (uuid : String → Option String) (random : Randoms) (ip : String)
        (alone : IsLeftAlone) where
      pub new_challenge-IsGone :
          (k : ℕ) (purpose : Purpose) (client_id user identity : String) (w w' : World r)
          → k ≤ last_step
          → Returns
              (new_challenge js uuid sch config random ip k purpose client_id user identity)
              w
              tt
              w'
          → IsGone w.redis
          → IsGone w'.redis
      unfolding new_challenge create_challenge
      new_challenge-IsGone k purpose client_id user identity w w' b h gone t after =
          ap (λ x. r.get t session_key x.1.redis) (sym h)
          ∙ IsGone-set_ex k challenges random.challenge_id _ _ (sch.gap k w).redis b refl
              (alone k w gone) t after

      find_challenge-IsGone :
          (k : ℕ) (found : ChallengeRecord) (ids : Confirmed) (w w' : World r)
          → Returns (find_challenge js uuid sch config random ip k) w (found, ids) w'
          → IsGone w.redis
          → IsGone w'.redis
      unfolding find_challenge
      find_challenge-IsGone k found ids w w' h gone =
          elim (Option-cases (get_challenge r (sch.at k) random.challenge_id (sch.gap k w).redis)) [
            | inl missing ↦ ground arith
            | inr (c, e) ↦ elim (Option-cases (confirm c)) [
              | inl refused ↦ ground arith
              | inr (i, e') ↦
                  let h' = rw (e, e', find_challenge) at h in
                  λ t after.
                    ap (λ x. r.get t session_key x.1.redis) (sym h') ∙ alone k w gone t after
            ]
          ]

      mark_used-IsGone :
          (k : ℕ) (w w' : World r)
          → k + 2 ≤ last_step
          → Returns (mark_used js uuid sch config random ip k) w tt w'
          → IsGone w.redis
          → IsGone w'.redis
      unfolding mark_used
      mark_used-IsGone k w w' b h gone =
          let asked = sch.gap k w in
          let timed = sch.gap (k + 1) asked in
          let now = sch.gap (k + 2) timed in
          let key = challenge_prefix ++ random.challenge_id in
          elim (Option-cases (get_challenge r (sch.at k) random.challenge_id asked.redis)) [
            | inl missing ↦
                let h' = rw (missing, mark_used) at h in
                λ t after. ap (λ x. r.get t session_key x.1.redis) (sym h') ∙ alone k w gone t after
            | inr (c, e) ↦ elim (Option-cases (positive (r.ttl (sch.at (k + 1)) key timed.redis))) [
              | inl over ↦
                  let h' = rw (e, over, mark_used) at h in
                  λ t after.
                    ap (λ x. r.get t session_key x.1.redis) (sym h')
                    ∙ alone (k + 1) asked (alone k w gone) t after
              | inr (seconds, e') ↦
                  let h' = rw (e, e', mark_used) at h in
                  λ t after.
                    ap (λ x. r.get t session_key x.1.redis) (sym h')
                    ∙ IsGone-set_ex (k + 2) challenges random.challenge_id _ seconds now.redis b
                        refl (alone (k + 2) timed (alone (k + 1) asked (alone k w gone))) t after
            ]
          ]

      issue_code-IsGone :
          (k : ℕ) (redirect_uri : String) (found : ChallengeRecord) (ids : Confirmed)
          (w w' : World r) (c : String)
          → k ≤ last_step
          → Returns (issue_code js uuid sch config random ip k redirect_uri found ids) w c w'
          → IsGone w.redis
          → IsGone w'.redis
      unfolding issue_code issue_authorization_code
      issue_code-IsGone k redirect_uri found ids w w' c b h gone t after =
          ap (λ x. r.get t session_key x.1.redis) (sym h)
          ∙ IsGone-set_ex k codes random.secret _ _ (sch.gap k w).redis b refl (alone k w gone) t
              after

      pub confirm_and_redirect-IsGone :
          (k : ℕ) (redirect_uri client_state status : String) (w w' : World r) (url : String)
          → k + 4 ≤ last_step
          → Returns
              (confirm_and_redirect js uuid sch config random ip k redirect_uri client_state status)
              w
              url
              w'
          → IsGone w.redis
          → IsGone w'.redis
      unfolding confirm_and_redirect
      confirm_and_redirect-IsGone k redirect_uri client_state status w w' url b h gone =
          let ((found, ids), w₁, searched, h₁) = bind_returns _ _ w url w' h in
          let (_, w₂, marked, h₂) = bind_returns _ _ w₁ url w' h₁ in
          let (c, w₃, issued, h₃) = bind_returns _ _ w₂ url w' h₂ in
          let gone₁ = find_challenge-IsGone k found ids w w₁ searched gone in
          let gone₂ = mark_used-IsGone (k + 1) w₁ w₂ (omega arith) marked gone₁ in
          let gone₃ = issue_code-IsGone (k + 4) redirect_uri found ids w₂ w₃ c b issued gone₂ in
          redirect-IsGone status redirect_uri _ w₃ w' url h₃ gone₃
