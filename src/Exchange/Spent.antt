-- ===== src/Exchange/Spent.antt =====
-- An authorization code that POST /internal/v1/authorization/exchange has taken stays taken through
-- the steps of src/exchange/exchange.controller.ts.
use kisauth.Base.{
  ℕ, ◌≤◌, false, String, Option, none, some, ◌≡◌, arith, Option-cases, inl, inr, ap, sym, ◌∙◌,
  str_eq, true, Bool, if◌then◌else◌,
}
use kisauth.Base.Texts.{◌++◌}
use kisauth.Js.{Js}
use kisauth.Json.{Json}
use kisauth.Keys.{code_prefix, limits, codes, str_eq-prefix}
use kisauth.Redis.{Redis}
use kisauth.RateLimit.{Limit, rate_limits, RateLimitResult, check, limit_key}
use kisauth.Signing.{Header, VerifyResult, ok, refused, thrown, given}
use kisauth.Events.{SecurityEvent}
use kisauth.Traffic.{hit, key_of, step, step_frame}
use kisauth.Service.{
  Config, World, Schedule, ◌>>=◌, limit_rate, counted_within, pure, throw, too_many_requests,
}
use kisauth.Service.Laws.{Returns, bind_returns}
use kisauth.Exchange.{
  ExchangeRequest, Fields, verify_request, accept_signature, authenticate, limit_client,
  require_fields, read_fields,
}

module _ (r : Redis) where
  check_keeps :
      (now t : ℕ) (scope identifier : String) (limit window : ℕ) (σ σ' : r.State)
      (result : RateLimitResult) (c : String)
      → now ≤ t
      → check r now scope identifier limit window σ ≡ some (result, σ')
      → r.get t (code_prefix ++ c) σ' ≡ r.get t (code_prefix ++ c) σ
  unfolding step key_of
  check_keeps now t scope identifier limit window σ σ' result c h checked =
      let other : str_eq (limit_key scope identifier) (code_prefix ++ c) ≡ false =
        str_eq-prefix limits codes (scope ++ (":" ++ identifier)) c in
      let framed =
        step_frame r now t (hit scope identifier limit window) σ (code_prefix ++ c) h other in
      rw checked at framed

module _ (js : Js) {r : Redis} (sch : Schedule r) (config : Config) (c : String) (t : ℕ) where
  -- Redis holds nothing for the code at the time.
  abbrev pub IsSpent : r.State → Type 0
  IsSpent σ = r.get t (code_prefix ++ c) σ ≡ none

  -- Nothing that other handlers do in between issues this code again: it is random.
  abbrev pub IsLeft : Type 0
  IsLeft = (k : ℕ) (w : World r) → IsSpent w.redis → IsSpent (sch.gap k w).redis

  passed_keeps :
      (allowed : Bool) (w w' : World r)
      → Returns (if allowed then pure tt else throw too_many_requests) w tt w'
      → w.redis ≡ w'.redis
  passed_keeps true w w' h = ap (λ x. x.1.redis) h
  passed_keeps false w w' h = ground arith

  pub limit_rate-IsSpent :
      (alone : IsLeft) (k : ℕ) (limit : Limit) (identifier : String) (w w' : World r)
      → sch.at k ≤ t
      → Returns (limit_rate sch k limit identifier) w tt w'
      → IsSpent w.redis
      → IsSpent w'.redis
  unfolding limit_rate counted_within
  limit_rate-IsSpent alone k limit identifier w w' before h spent =
      let (result, w'', counted, rest) =
        bind_returns (counted_within sch k limit identifier) _ w tt w' h in
      let p = rate_limits limit in
      elim (Option-cases
        (check r (sch.at k) p.scope identifier p.limit p.window_seconds (sch.gap k w).redis)) [
          | inl error ↦ ground arith
          | inr ((found, σ), checked) ↦
              let stored : σ ≡ w''.redis =
                ap (λ x. x.1.redis) (rw (checked, counted_within) at counted) in
              let same : σ ≡ w'.redis = stored ∙ passed_keeps result.allowed w'' w' rest in
              ap (r.get t (code_prefix ++ c)) (sym same)
              ∙ check_keeps r (sch.at k) t p.scope identifier p.limit p.window_seconds
                  (sch.gap k w).redis σ found c before checked
              ∙ alone k w spent
        ]

  pub limit_client-IsSpent :
      (alone : IsLeft) (k : ℕ) (limit : Limit) (id : Option String) (w w' : World r)
      → sch.at k ≤ t
      → Returns (limit_client js sch config k limit id) w tt w'
      → IsSpent w.redis
      → IsSpent w'.redis
  unfolding limit_client
  limit_client-IsSpent alone k limit none w w' before h spent =
      ap (λ x. r.get t (code_prefix ++ c) x.1.redis) (sym h) ∙ spent
  limit_client-IsSpent alone k limit (some id) w w' before h spent =
      limit_rate-IsSpent alone k limit id w w' before h spent

  accept_signature_keeps :
      (event : Option SecurityEvent) (result : VerifyResult) (w w' : World r)
      → Returns (accept_signature js sch config event result) w tt w'
      → w.redis ≡ w'.redis
  unfolding accept_signature ◌>>=◌
  accept_signature_keeps event ok w w' h = ap (λ x. x.1.redis) h
  accept_signature_keeps none (refused reason) w w' h = ground arith
  accept_signature_keeps (some event) (refused reason) w w' h = ground arith
  accept_signature_keeps event thrown w w' h = ground arith

  pub authenticate-IsSpent :
      (alone : IsLeft) (k : ℕ) (url : String) (body : Option Json)
      (headers : String → Option Header) (event : Option SecurityEvent) (w w' : World r)
      → Returns (authenticate js sch config k url body headers event) w tt w'
      → IsSpent w.redis
      → IsSpent w'.redis
  unfolding authenticate verify_request
  authenticate-IsSpent alone k url body headers event w w' h spent =
      let (result, w'', verified, rest) =
        bind_returns (verify_request js sch config k url body headers) _ w tt w' h in
      let same : (sch.gap k w).redis ≡ w'.redis =
        ap (λ x. x.1.redis) verified ∙ accept_signature_keeps event result w'' w' rest in
      ap (r.get t (code_prefix ++ c)) (sym same) ∙ alone k w spent

  pub require_fields_keeps :
      (req : ExchangeRequest) (w w' : World r) (fields : Fields)
      → Returns (require_fields js sch config req) w fields w'
      → w.redis ≡ w'.redis
  unfolding require_fields
  require_fields_keeps req w w' fields h =
      elim (Option-cases
        (read_fields (given req.code) (given req.client_id) (given req.redirect_uri))) [
          | inl missing ↦ ground arith
          | inr (found, read) ↦ ap (λ x. x.1.redis) (rw (read, require_fields) at h)
        ]
