-- ===== src/Exchange/Once.antt =====
-- No authorization code buys two tokens (src/exchange/exchange.controller.ts).
use kisauth.Base.{
  ℕ, ◌≤◌, String, Option, none, some, ◌≡◌, refl, arith, Option-cases, Bool-cases, inl, inr, ap, sym,
  ◌∙◌, subst, some_inj,
}
use kisauth.Base.Texts.{◌++◌}
use kisauth.Js.{Js}
use kisauth.Json.{Json}
use kisauth.Keys.{code_prefix}
use kisauth.Redis.{Redis}
use kisauth.Records.{AuthorizationCodePayload, as_code}
use kisauth.RateLimit.{exchange_per_ip, exchange_per_client}
use kisauth.Challenge.{consume_authorization_code}
use kisauth.Challenge.Consume.{consume_script_gone, consume_script_reply}
use kisauth.Signing.{given}
use kisauth.Identity.{AuthIdentity, find_by_id}
use kisauth.Jwt.{sign}
use kisauth.Events.{exchange_failed, SecurityEvent}
use kisauth.Service.{Config, World, Schedule, emit, pure, ◌>>=◌}
use kisauth.Service.Laws.{Returns, bind_returns}
use kisauth.Exchange.{ExchangeRequest, Fields, admit}
use kisauth.Exchange.Admission.{admit-Admitted}
use kisauth.Exchange.Granted.{take_code_returns}
use kisauth.Exchange.Code.{
  exchange_url, code_claims, is_current, exchange_success, refuse_exchange, take_code, match_code,
  find_identity, vouch, sign_token, exchange,
}
use kisauth.Exchange.Spent.{
  IsSpent, IsLeft, limit_rate-IsSpent, limit_client-IsSpent, authenticate-IsSpent,
  require_fields_keeps,
}

module _ (js : Js) (uuid : String → Option String)
    (rs256 : (pem kid : String) → Json → Option String) {r : Redis} (sch : Schedule r)
    (config : Config) (c : String) (t : ℕ) (alone : IsLeft js sch config c t) where
  abbrev Spent : World r → Type 0
  Spent w = IsSpent js sch config c t w.redis

  named_code :
      (req : ExchangeRequest) (fields : Fields) (w w' : World r)
      → given req.code ≡ some c
      → Returns
          (admit js sch config exchange_url exchange_per_ip exchange_per_client exchange_failed req)
          w
          fields
          w'
      → fields.code ≡ c
  named_code req fields w w' named h =
      let passed =
        admit-Admitted js sch config exchange_url exchange_per_ip exchange_per_client
          exchange_failed req w w' fields h in
      some_inj (sym passed.has_code ∙ named)

  admit-IsSpent :
      (req : ExchangeRequest) (fields : Fields) (w w' : World r)
      → ((k : ℕ) → k ≤ 2 → sch.at k ≤ t)
      → Returns
          (admit js sch config exchange_url exchange_per_ip exchange_per_client exchange_failed req)
          w
          fields
          w'
      → Spent w
      → Spent w'
  unfolding admit
  admit-IsSpent req fields w w' before h spent =
      let (_, w₁, ip, h₁) = bind_returns _ _ w fields w' h in
      let (_, w₂, client, h₂) = bind_returns _ _ w₁ fields w' h₁ in
      let (_, w₃, signed, h₃) = bind_returns _ _ w₂ fields w' h₂ in
      let spent₁ =
        limit_rate-IsSpent js sch config c t alone 0 exchange_per_ip req.ip w w₁
          (before 0 (omega arith)) ip spent in
      let spent₂ =
        limit_client-IsSpent js sch config c t alone 1 exchange_per_client (given req.client_id) w₁
          w₂ (before 1 (omega arith)) client spent₁ in
      let spent₃ =
        authenticate-IsSpent js sch config c t alone 2 exchange_url req.body req.headers _ w₂ w₃
          signed spent₂ in
      subst (λ σ. IsSpent js sch config c t σ)
        (require_fields_keeps js sch config c t req w₃ w' fields h₃) spent₃

  take_code_leaves :
      (req : ExchangeRequest) (w w' : World r) (payload : AuthorizationCodePayload)
      → Returns (take_code js uuid rs256 sch config req c) w payload w'
      → (consume_authorization_code r (sch.at 3) c (sch.gap 3 w).redis).1 ≡ w'.redis
  unfolding take_code refuse_exchange ◌>>=◌
  take_code_leaves req w w' payload h =
      elim (Option-cases (consume_authorization_code r (sch.at 3) c (sch.gap 3 w).redis).0) [
        | inl missing ↦ ground arith
        | inr (found, e) ↦ ap (λ x. x.1.redis) (rw (e, take_code) at h)
      ]

  take_code-IsSpent :
      (req : ExchangeRequest) (w w' : World r) (payload : AuthorizationCodePayload)
      → sch.at 3 ≤ t
      → Returns (take_code js uuid rs256 sch config req c) w payload w'
      → Spent w'
  unfolding consume_authorization_code
  take_code-IsSpent req w w' payload before h =
      ap (r.get t (code_prefix ++ c)) (sym (take_code_leaves req w w' payload h))
      ∙ consume_script_gone r (sch.at 3) t (code_prefix ++ c) (sch.gap 3 w).redis before

  -- A code that is spent is not taken.
  take_code_refused :
      (req : ExchangeRequest) (w w' : World r) (payload : AuthorizationCodePayload)
      → t ≡ sch.at 3
      → Spent w
      → ¬ Returns (take_code js uuid rs256 sch config req c) w payload w'
  unfolding consume_authorization_code
  take_code_refused req w w' payload now spent h =
      let missing : r.get (sch.at 3) (code_prefix ++ c) (sch.gap 3 w).redis ≡ none =
        subst (λ x. r.get x (code_prefix ++ c) (sch.gap 3 w).redis ≡ none) now (alone 3 w spent) in
      let reply =
        ap (λ o. kisauth.Records.◌>>=◌ o as_code)
          (consume_script_reply r (sch.at 3) (code_prefix ++ c) (sch.gap 3 w).redis ∙ missing) in
      let took = take_code_returns js uuid rs256 sch config req c w w' payload h in cc (reply, took)

  match_code_keeps :
      (req : ExchangeRequest) (fields : Fields) (payload : AuthorizationCodePayload)
      (w w' : World r)
      → Returns (match_code js uuid rs256 sch config req fields payload) w tt w'
      → w.redis ≡ w'.redis
  unfolding match_code refuse_exchange ◌>>=◌
  match_code_keeps req fields payload w w' h = ground arith

  find_identity-IsSpent :
      (id : String) (w w' : World r) (found : Option AuthIdentity)
      → Returns (find_identity js uuid rs256 sch config id) w found w'
      → Spent w
      → Spent w'
  unfolding find_identity
  find_identity-IsSpent id w w' found h spent =
      elim (Option-cases (find_by_id uuid id (sch.gap 4 w).identities)) [
        | inl missing ↦ ground arith
        | inr (identity, e) ↦
            ap (λ x. r.get t (code_prefix ++ c) x.1.redis) (sym (rw (e, find_identity) at h))
            ∙ alone 4 w spent
      ]

  vouch_keeps :
      (req : ExchangeRequest) (payload : AuthorizationCodePayload) (found : Option AuthIdentity)
      (w w' : World r) (identity : AuthIdentity)
      → Returns (vouch js uuid rs256 sch config req payload found) w identity w'
      → w.redis ≡ w'.redis
  unfolding vouch refuse_exchange ◌>>=◌
  vouch_keeps req payload none w w' identity h = ground arith
  vouch_keeps req payload (some i) w w' identity h = elim (Bool-cases (is_current payload i)) [
    | inr stale ↦ ground arith
    | inl current ↦ ap (λ x. x.1.redis) (rw (current, vouch) at h)
  ]

  sign_token-IsSpent :
      (k : ℕ) (jti : String) (payload : AuthorizationCodePayload) (identity : AuthIdentity)
      (w w' : World r) (token : String)
      → Returns
          (sign_token js uuid rs256 sch config k jti (code_claims payload identity))
          w
          token
          w'
      → Spent w
      → Spent w'
  unfolding sign_token
  sign_token-IsSpent k jti payload identity w w' token h spent =
      elim (Option-cases (
        sign rs256 (sch.at k) jti config (code_claims payload identity)
          config.auth_code_ttl_seconds)) [
            | inl failed ↦ ground arith
            | inr (made, e) ↦
                ap (λ x. r.get t (code_prefix ++ c) x.1.redis) (sym (rw (e, sign_token) at h))
                ∙ alone k w spent
          ]

  reported_keeps :
      (event : SecurityEvent) (token token' : String) (w w' : World r)
      → Returns (emit event >>= λ _. pure token) w token' w'
      → w.redis ≡ w'.redis
  unfolding ◌>>=◌
  reported_keeps event token token' w w' h = ap (λ x. x.1.redis) h

  exchange-IsSpent :
      (jti : String) (req : ExchangeRequest) (w w' : World r) (token : String)
      → given req.code ≡ some c
      → sch.at 3 ≤ t
      → Returns (exchange js uuid rs256 sch config jti req) w token w'
      → Spent w'
  unfolding exchange
  exchange-IsSpent jti req w w' token named before h =
      let (fields, w₁, admitted, h₁) = bind_returns _ _ w token w' h in
      let (payload, w₂, taken, h₂) = bind_returns _ _ w₁ token w' h₁ in
      let (_, w₃, matched, h₃) = bind_returns _ _ w₂ token w' h₂ in
      let (found, w₄, searched, h₄) = bind_returns _ _ w₃ token w' h₃ in
      let (identity, w₅, vouched, h₅) = bind_returns _ _ w₄ token w' h₄ in
      let (token', w₆, signed, h₆) = bind_returns _ _ w₅ token w' h₅ in
      let same = named_code req fields w w₁ named admitted in
      let spent₂ = take_code-IsSpent req w₁ w₂ payload before (
        subst (λ x. Returns (take_code js uuid rs256 sch config req x) w₁ payload w₂) same taken) in
      let spent₃ =
        subst (λ σ. IsSpent js sch config c t σ) (match_code_keeps req fields payload w₂ w₃ matched)
          spent₂ in
      let spent₄ = find_identity-IsSpent payload.auth_identity_id w₃ w₄ found searched spent₃ in
      let spent₅ =
        subst (λ σ. IsSpent js sch config c t σ)
          (vouch_keeps req payload found w₄ w₅ identity vouched) spent₄ in
      let spent₆ = sign_token-IsSpent 5 jti payload identity w₅ w₆ token' signed spent₅ in
      subst (λ σ. IsSpent js sch config c t σ)
        (reported_keeps (exchange_success req payload) token' token w₆ w' h₆) spent₆

  exchange_refused :
      (jti : String) (req : ExchangeRequest) (w w' : World r) (token : String)
      → given req.code ≡ some c
      → ((k : ℕ) → k ≤ 2 → sch.at k ≤ t)
      → t ≡ sch.at 3
      → Spent w
      → ¬ Returns (exchange js uuid rs256 sch config jti req) w token w'
  unfolding exchange
  exchange_refused jti req w w' token named before now spent h =
      let (fields, w₁, admitted, h₁) = bind_returns _ _ w token w' h in
      let (payload, w₂, taken, h₂) = bind_returns _ _ w₁ token w' h₁ in
      let same = named_code req fields w w₁ named admitted in
      take_code_refused req w₁ w₂ payload now (admit-IsSpent req fields w w₁ before admitted spent)
        (subst (λ x. Returns (take_code js uuid rs256 sch config req x) w₁ payload w₂) same taken)

module _ (js : Js) (uuid : String → Option String)
    (rs256 : (pem kid : String) → Json → Option String) {r : Redis} (sch later : Schedule r)
    (config : Config) (c : String) where
  -- An authorization code that has bought a token buys no other: an exchange of the same code that
  -- comes after the first is never answered with a token, whoever sends it and whatever other handlers
  -- do meanwhile, provided that the code is not issued again, that is that neither the steps of other
  -- handlers nor what lies between the two requests puts it back once it is gone.
  pub exchange_once :
      (jti jti' token token' : String) (req req' : ExchangeRequest) (w w' v v' : World r)
      → IsLeft js sch config c (later.at 3)
      → IsLeft js later config c (later.at 3)
      → (IsSpent js sch config c (later.at 3) w'.redis
          → IsSpent js sch config c (later.at 3) v.redis)
      → sch.at 3 ≤ later.at 3
      → ((k : ℕ) → k ≤ 2 → later.at k ≤ later.at 3)
      → given req.code ≡ some c
      → given req'.code ≡ some c
      → Returns (exchange js uuid rs256 sch config jti req) w token w'
      → ¬ Returns (exchange js uuid rs256 later config jti' req') v token' v'
  exchange_once jti jti' token token' req req' w w' v v' alone alone' between turn ordered named
        named' h =
      exchange_refused js uuid rs256 later config c (later.at 3) alone' jti' req' v v' token' named'
        ordered refl
        (between (
          exchange-IsSpent js uuid rs256 sch config c (later.at 3) alone jti req w w' token named
            turn h))
