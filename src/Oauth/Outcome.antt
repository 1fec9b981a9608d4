-- ===== src/Oauth/Outcome.antt =====
-- src/oauth/oauth-outcome.service.ts: what follows once a provider has vouched for an identity.
-- A call takes the number k of its first step, so that callers can go before it.
use kisauth.Base.{
  ℕ, ◌+◌, Bool, String, Option, none, some, List, [], ◌∷◌, ◌||◌, leb, if◌then◌else◌, false, true,
}
use kisauth.Js.{Js}
use kisauth.Redis.{Redis}
use kisauth.Records.{Purpose, OAuthSession, ChallengeRecord, challenge}
use kisauth.Keys.{challenge_prefix}
use kisauth.Challenge.{positive, create_challenge, get_challenge, issue_authorization_code}
use kisauth.Signing.{given}
use kisauth.Identity.{LinkResult, linked, already_linked, fault}
use kisauth.Events.{
  EventType, EventOutcome, SecurityEvent, success, failure, link_already_linked, link_succeeded,
}
use kisauth.Service.{
  Config, Schedule, Handler, bad_request, internal_error, ◌>>=◌, throw, emit, reply, failed,
}
use kisauth.Exchange.Link.{link_identity}
use kisauth.Oauth.{redirect, delete_session}
use kisauth.Base.Texts.{◌++◌}

pub record VerifiedProviderIdentity : Type 0 where
  pub sub : String
  pub email : Option String
  pub email_verified : Bool

-- The random texts of one call: randomUUID for a challenge, gen_random_uuid() of Postgres for a
-- row, and base64url(randomBytes(32)) for a code or a ticket.
pub record Randoms : Type 0 where
  pub challenge_id : String
  pub row_id : String
  pub secret : String

abbrev pub outcome_event :
    EventType
    → EventOutcome
    → (kis_user_id : Option String) → OAuthSession
    → (ip : String) → List (String × Option String)
    → SecurityEvent
outcome_event event_type outcome kis_user_id session ip metadata = record {
  event_type = event_type;
  outcome = outcome;
  kis_user_id = kis_user_id;
  client_id = some session.client_id;
  reason = none;
  ip = some ip;
  metadata = metadata;
}

-- A record that confirmAndRedirect accepts carries an account and an identity.
pub record Confirmed : Type 0 where
  pub kis_user_id : String
  pub auth_identity_id : String

abbrev pub confirmed_ids : (kis_user_id auth_identity_id : Option String) → Option Confirmed
confirmed_ids (some user) (some identity) =
    some (record { kis_user_id = user; auth_identity_id = identity })
confirmed_ids _ _ = none

-- The tests of confirmAndRedirect on the stored record.
unfoldable pub confirm : ChallengeRecord → Option Confirmed
confirm found =
    if found.used || leb found.max_attempts found.attempt_count
    then none
    else confirmed_ids (given found.kis_user_id) (given found.auth_identity_id)

module _ (js : Js) (uuid : String → Option String) {r : Redis} (sch : Schedule r) (config : Config)
    (random : Randoms) (ip : String) where
  unfoldable pub new_challenge :
      (k : ℕ) → Purpose → (client_id kis_user_id auth_identity_id : String) → Handler r Unit
  new_challenge k purpose client_id kis_user_id auth_identity_id w =
      let now = sch.gap k w in
      let record' : ChallengeRecord = record {
        purpose = purpose;
        client_id = client_id;
        kis_user_id = some kis_user_id;
        auth_identity_id = some auth_identity_id;
        attempt_count = 0;
        max_attempts = config.challenge_max_attempts;
        used = false;
      } in
      (
        reply tt,
        record now {
          redis =
              create_challenge r (sch.at k) random.challenge_id record' config.challenge_ttl_seconds
                now.redis;
        },
      )

  -- `getChallenge` and the two tests behind it.
  unfoldable pub find_challenge : (k : ℕ) → Handler r (ChallengeRecord × Confirmed)
  find_challenge k w =
      let now = sch.gap k w in
      elim (get_challenge r (sch.at k) random.challenge_id now.redis) [
        | none ↦ (failed bad_request, now)
        | some found ↦ elim (confirm found) [
          | none ↦ (failed bad_request, now)
          | some ids ↦ (reply (found, ids), now)
        ]
      ]

  -- `markChallengeUsed`, on the whole state: GET, TTL and SET are three steps.
  unfoldable pub mark_used : (k : ℕ) → Handler r Unit
  mark_used k w =
      let asked = sch.gap k w in
      elim (get_challenge r (sch.at k) random.challenge_id asked.redis) [
        | none ↦ (reply tt, asked)
        | some found ↦
            let timed = sch.gap (k + 1) asked in
            elim (positive
              (r.ttl (sch.at (k + 1)) (challenge_prefix ++ random.challenge_id) timed.redis)) [
                | none ↦ (reply tt, timed)
                | some seconds ↦
                    let now = sch.gap (k + 2) timed in
                    (
                      reply tt,
                      record now {
                        redis =
                            r.set_ex (sch.at (k + 2)) (challenge_prefix ++ random.challenge_id)
                              (challenge (record found { used = true })) seconds now.redis;
                      },
                    )
              ]
      ]

  unfoldable pub issue_code :
      (k : ℕ) → (redirect_uri : String) → ChallengeRecord → Confirmed → Handler r String
  issue_code k redirect_uri found ids w =
      let now = sch.gap k w in
      let (code, σ) =
        issue_authorization_code r (sch.at k) random.secret
          (record {
            purpose = found.purpose;
            client_id = found.client_id;
            kis_user_id = ids.kis_user_id;
            auth_identity_id = ids.auth_identity_id;
            redirect_uri = redirect_uri;
          })
          config.auth_code_ttl_seconds now.redis in
      (reply code, record now { redis = σ })

  unfoldable pub confirm_and_redirect :
      (k : ℕ) → (redirect_uri client_state success_state : String) → Handler r String
  confirm_and_redirect k redirect_uri client_state success_state = do
    (found, ids) ← find_challenge k
    _ ← mark_used (k + 1)
    code ← issue_code (k + 4) redirect_uri found ids
    redirect js sch config success_state redirect_uri
        (("code", code) ∷ ("state", client_state) ∷ [])

  -- What finalizeLink does with the result of `identities.link`.
  unfoldable pub answer_link_result :
      (k : ℕ) → (provider kis_user_id : String) → OAuthSession → LinkResult → Handler r String
  answer_link_result k provider kis_user_id session fault = throw internal_error
  answer_link_result k provider kis_user_id session already_linked = do
    _ ← emit (
        outcome_event link_already_linked failure (some kis_user_id) session ip
          (("provider", some provider) ∷ []))
    redirect js sch config "already_linked" session.redirect_uri
        (("error", "already_linked") ∷ ("state", session.client_state) ∷ [])
  answer_link_result k provider kis_user_id session (linked identity) = do
    _ ← emit (
        outcome_event link_succeeded success (some kis_user_id) session ip
          (("provider", some provider) ∷ []))
    _ ← new_challenge k "link" session.client_id kis_user_id identity.id
    confirm_and_redirect (k + 1) session.redirect_uri session.client_state "success"

  -- `await this.sessions.delete(sessionId)`, unless link has thrown.
  unfoldable pub delete_after_link : (k : ℕ) → (session_id : String) → LinkResult → Handler r Unit
  delete_after_link k session_id fault = throw internal_error
  delete_after_link k session_id result = delete_session js sch config k session_id

  unfoldable pub link_for :
      (k : ℕ)
      → (provider : String) → VerifiedProviderIdentity
      → OAuthSession
      → (session_id : String) → Option String
      → Handler r String
  link_for k provider verified session session_id none = do
    _ ← delete_session js sch config k session_id
    throw bad_request
  link_for k provider verified session session_id (some kis_user_id) = do
    result ← link_identity js uuid sch config k random.row_id (record {
      provider = provider;
      provider_subject = verified.sub;
      kis_user_id = kis_user_id;
      provider_email = verified.email;
      provider_email_verified = verified.email_verified;
    })
    _ ← delete_after_link (k + 2) session_id result
    answer_link_result (k + 3) provider kis_user_id session result

  unfoldable pub finalize_link :
      (k : ℕ)
      → (provider : String) → VerifiedProviderIdentity
      → OAuthSession
      → (session_id : String) → Handler r String
  finalize_link k provider verified session session_id =
      link_for k provider verified session session_id (given session.link_kis_user_id)
