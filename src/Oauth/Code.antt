-- ===== src/Oauth/Code.antt =====
-- The authorization code of src/oauth/oauth-outcome.service.ts carries what the session and the
-- identity say.
use kisauth.Base.{
  ℕ, ◌+◌, ◌≤◌, String, Option, some, List, ◌≡◌, arith, Option-cases, Bool-cases, inl, inr, ap, sym,
  ◌∙◌, some_inj, leb, [], ◌∷◌, subst,
}
use kisauth.Js.{Js}
use kisauth.Redis.{Redis}
use kisauth.Records.{Purpose, OAuthSession, ChallengeRecord, AuthorizationCodePayload}
use kisauth.Challenge.{issue_authorization_code}
use kisauth.Signing.{given}
use kisauth.Identity.{AuthIdentity}
use kisauth.Service.{Config, World, Schedule}
use kisauth.Service.Laws.{Returns, bind_returns, reply_inj}
use kisauth.Oauth.Destination.{SentBack, redirect_sends}
use kisauth.Oauth.{location, redirect}
use kisauth.Oauth.Outcome.{
  Randoms, Confirmed, confirmed_ids, confirm, issue_code, confirm_and_redirect,
}
use kisauth.Oauth.Finish.{finalize_returning_user}
use kisauth.Oauth.Issued.{
  IsPrivate, made_challenge, HoldsAtMost, new_challenge-HoldsAtMost, HoldsAtMost-gap,
  delete_session-HoldsAtMost, find_challenge_returns,
}

given-some : (s t : String) → given (some s) ≡ some t → t ≡ s
given-some s t h = ground arith

confirmed_ids-some :
    (a b : Option String) (ids : Confirmed)
    → confirmed_ids a b ≡ some ids
    → (a ≡ some ids.kis_user_id) × (b ≡ some ids.auth_identity_id)
confirmed_ids-some (some a) (some b) ids h =
    (ap (λ x. some x.kis_user_id) (some_inj h), ap (λ x. some x.auth_identity_id) (some_inj h))
confirmed_ids-some _ _ ids h = cc

module _ (js : Js) (uuid : String → Option String) {r : Redis} (sch : Schedule r) (config : Config)
    (random : Randoms) (ip : String) where
  abbrev pub code_payload :
      Purpose → (client_id user identity redirect_uri : String) → AuthorizationCodePayload
  code_payload purpose client_id user identity redirect_uri = record {
    purpose = purpose;
    client_id = client_id;
    kis_user_id = user;
    auth_identity_id = identity;
    redirect_uri = redirect_uri;
  }

  -- Redis has just stored the code, at a step, for its lifetime.
  abbrev pub HasIssued : (k : ℕ) → AuthorizationCodePayload → r.State → Type 0
  HasIssued k payload σ' =
      (σ : r.State) × (σ'
        ≡ (issue_authorization_code r (sch.at k) random.secret payload config.auth_code_ttl_seconds
            σ).1)

  confirm-made_challenge :
      (purpose : Purpose) (client_id user identity : String) (ids : Confirmed)
      → confirm (made_challenge js uuid sch config random ip purpose client_id user identity)
        ≡ some ids
      → (ids.kis_user_id ≡ user) × (ids.auth_identity_id ≡ identity)
  unfolding confirm
  confirm-made_challenge purpose client_id user identity ids h =
      elim (Bool-cases (leb config.challenge_max_attempts 0)) [
        | inl spent ↦ ground arith
        | inr left ↦
            let (a, b) =
              confirmed_ids-some (given (some user)) (given (some identity)) ids (ground arith) in
            (given-some user ids.kis_user_id a, given-some identity ids.auth_identity_id b)
      ]

  code_payload-same :
      (found c : ChallengeRecord) (u v i j redirect_uri : String)
      → found ≡ c
      → u ≡ v
      → i ≡ j
      → code_payload found.purpose found.client_id u i redirect_uri
        ≡ code_payload c.purpose c.client_id v j redirect_uri
  code_payload-same found c u v i j redirect_uri a b d = rw (a, b, d)

  redirect_keeps :
      (status redirect_uri : String) (params : List (String × String)) (w w' : World r)
      (url : String)
      → Returns (redirect js sch config status redirect_uri params) w url w'
      → w'.redis ≡ w.redis
  unfolding redirect
  redirect_keeps status redirect_uri params w w' url h =
      elim (Option-cases (location js config.base_url status redirect_uri params)) [
        | inl bad ↦ ground arith
        | inr (made, e) ↦ ap (λ x. x.1.redis) (sym (rw (e, redirect) at h))
      ]

  pub confirm_issues :
      (p : IsPrivate js uuid sch config random ip) (k from : ℕ) (purpose : Purpose)
      (client_id user identity redirect_uri client_state status : String) (w w' : World r)
      (url : String)
      → from ≤ sch.at k
      → HoldsAtMost js uuid sch config random ip from
          (made_challenge js uuid sch config random ip purpose client_id user identity)
          w.redis
      → Returns
          (confirm_and_redirect js uuid sch config random ip k redirect_uri client_state status)
          w
          url
          w'
      → HasIssued (k + 4) (code_payload purpose client_id user identity redirect_uri) w'.redis
        × SentBack js uuid sch config random ip status
            (("code", random.secret) ∷ ("state", client_state) ∷ [])
            redirect_uri
            url
  unfolding confirm_and_redirect issue_code issue_authorization_code
  confirm_issues p k from purpose client_id user identity redirect_uri client_state status w w' url
        later holds h =
      let ((found, ids), w₁, searched, h₁) = bind_returns _ _ w url w' h in
      let (_, w₂, _, h₂) = bind_returns _ _ w₁ url w' h₁ in
      let (code, w₃, issued, h₃) = bind_returns _ _ w₂ url w' h₂ in
      let c = made_challenge js uuid sch config random ip purpose client_id user identity in
      let (read, accepted) =
        find_challenge_returns js uuid sch config random ip k w w₁ found ids searched in
      let is_ours : found ≡ c =
        HoldsAtMost-gap js uuid sch config random ip p k from c w holds (sch.at k) found later
          read in
      let (same_user, same_identity) =
        confirm-made_challenge purpose client_id user identity ids
          (ap confirm (sym is_ours) ∙ accepted) in
      let paid =
        code_payload-same found c ids.kis_user_id user ids.auth_identity_id identity redirect_uri
          is_ours same_user same_identity in
      let is_secret : random.secret ≡ code = reply_inj (ap (λ x. x.0) issued) in
      let sent =
        redirect_sends js uuid sch config random ip status redirect_uri
          (("code", code) ∷ ("state", client_state) ∷ []) w₃ w' url h₃ in
      let stored : HasIssued (k + 4) (code_payload purpose client_id user identity redirect_uri)
          w'.redis =
        (
          (sch.gap (k + 4) w₂).redis,
          redirect_keeps status redirect_uri _ w₃ w' url h₃
              ∙ ap (λ x. x.1.redis) (sym issued)
              ∙ ap
                  (λ x.
                    (issue_authorization_code r (sch.at (k + 4)) random.secret x
                      config.auth_code_ttl_seconds (sch.gap (k + 4) w₂).redis).1)
                  paid,
        ) in
      (
        stored,
        subst
            (λ x.
              SentBack js uuid sch config random ip status
                (("code", x) ∷ ("state", client_state) ∷ []) redirect_uri url)
            (sym is_secret) sent,
      )

  -- When a returning user is redirected, it is to the status page with the redirect URI of the session
  -- that has a code and the client's state set on it, and Redis has just stored this very code for the
  -- client, the purpose and the redirect URI of the session and for the account and the row of the
  -- identity,
  -- provided that time goes forward and nothing else writes the key of the new challenge.
  pub returning_user-HasIssued :
      (k : ℕ) (subject : String) (identity : AuthIdentity) (session : OAuthSession)
      (session_id : String) (w w' : World r) (url : String)
      → IsPrivate js uuid sch config random ip
      → Returns
          (finalize_returning_user js uuid sch config random ip k subject
            (some identity)
            session
            session_id)
          w
          url
          w'
      → HasIssued
          (k + 3 + 4)
          (code_payload session.purpose session.client_id identity.kis_user_id identity.id
            session.redirect_uri)
          w'.redis
        × SentBack js uuid sch config random ip "recovery_success"
            (("code", random.secret) ∷ ("state", session.client_state) ∷ [])
            session.redirect_uri
            url
  unfolding finalize_returning_user
  returning_user-HasIssued k subject identity session session_id w w' url p h =
      let (_, w₁, _, h₁) = bind_returns _ _ w url w' h in
      let (_, w₂, _, h₂) = bind_returns _ _ w₁ url w' h₁ in
      let (_, w₃, created, h₃) = bind_returns _ _ w₂ url w' h₂ in
      let (_, w₄, deleted, h₄) = bind_returns _ _ w₃ url w' h₃ in
      let c =
        made_challenge js uuid sch config random ip session.purpose session.client_id
          identity.kis_user_id identity.id in
      let after_create =
        new_challenge-HoldsAtMost js uuid sch config random ip (k + 1) session.purpose
          session.client_id identity.kis_user_id identity.id w₂ w₃ created in
      let after_delete =
        delete_session-HoldsAtMost js uuid sch config random ip p (k + 2) (sch.at (k + 1)) c
          session_id w₃ w₄ deleted after_create in
      confirm_issues p (k + 3) (sch.at (k + 1)) session.purpose session.client_id
        identity.kis_user_id identity.id session.redirect_uri session.client_state
        "recovery_success" w₄ w' url (p.ordered (k + 1) (k + 3) (omega arith)) after_delete h₄
