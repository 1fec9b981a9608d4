-- ===== src/Providers/Current.antt =====
-- How old a partner's configuration of src/oauth/oidc-provider-resolver.service.ts may be.
use kisauth.Base.{
  ℕ, ◌+◌, ◌≤◌, ◌<◌, String, Option, none, some, ◌≡◌, refl, arith, Option-cases, inl, inr, ap, sym,
  ◌∙◌,
}
use kisauth.Js.{Js}
use kisauth.Redis.{Redis}
use kisauth.Memo.{IsTrue, IsTrue-later, fresh, fresh-IsTrue, keep-IsTrue}
use kisauth.Partner.{OidcPartnerConfig, Answer}
use kisauth.Service.{Config, World, Schedule}
use kisauth.Service.Laws.{Returns, reply_inj}
use kisauth.Providers.{
  Reason, ResolveResult, resolved, unresolved, thrown, cache_ttl_ms, ask, keep_resolved, resolve,
}

module _ (js : Js)
    (django : (at : ℕ) → (url : String) → (headers : String × String × String) → Option Answer)
    (config : Config) where
  -- Django has given the configuration for the slug when it was asked at this time.
  abbrev pub FromDjango : String → ℕ → OidcPartnerConfig → Type 0
  FromDjango partner_slug asked partner =
      (nonce : String) × (ask js django config nonce asked partner_slug ≡ resolved partner)

  -- Every configuration in the cache is one that Django gave for its slug, asked before now, and
  -- counts for at most a minute and the delay of an answer from when it was asked.
  abbrev pub IsFromDjango : (delay : ℕ) → {r : Redis} → (now : ℕ) → World r → Type 0
  IsFromDjango delay now w = IsTrue FromDjango (delay + 60000) now w.providers

  module _ (nonce : String) (delay : ℕ) {r : Redis} (sch : Schedule r) (k : ℕ)
      (partner_slug : String) (ordered : sch.at k ≤ sch.at (k + 1))
      (prompt : sch.at (k + 1) ≤ sch.at k + delay)
      (others : (j t : ℕ) (u : World r)
        → t ≤ sch.at j
        → IsFromDjango delay t u
        → IsFromDjango delay (sch.at j) (sch.gap j u)) where
    keep_resolved-IsFromDjango :
        (result : ResolveResult) (w : World r)
        → ask js django config nonce (sch.at k) partner_slug ≡ result
        → IsFromDjango delay (sch.at k) w
        → IsFromDjango delay
            (sch.at (k + 1))
            (keep_resolved js django config nonce sch (k + 1) partner_slug result w).1
    unfolding keep_resolved
    keep_resolved-IsFromDjango (resolved partner) w asked h =
        keep-IsTrue FromDjango (delay + 60000) (sch.at k) (sch.at (k + 1)) cache_ttl_ms partner_slug
          (sch.gap (k + 1) w).providers partner ordered (omega arith) (nonce, asked)
          (others (k + 1) (sch.at k) w ordered h)
    keep_resolved-IsFromDjango (unresolved reason) w asked h = others (k + 1) (sch.at k) w ordered h
    keep_resolved-IsFromDjango thrown w asked h = others (k + 1) (sch.at k) w ordered h

    -- Whatever a lookup comes to, it leaves in the cache only configurations that Django gave for
    -- their slugs when it was asked, each counting for no longer than a minute and the delay from
    -- then, if its answer comes within the delay and the handlers in between leave the cache so.
    pub resolve-IsFromDjango :
        (t : ℕ) (w : World r)
        → t ≤ sch.at k
        → IsFromDjango delay t w
        → IsFromDjango delay
            (sch.at (k + 1))
            (resolve js django config nonce sch k partner_slug w).1
    unfolding resolve
    resolve-IsFromDjango t w past h =
        let met = others k t w past h in
        elim (Option-cases (fresh (sch.at k) partner_slug (sch.gap k w).providers)) [
          | inr (partner, hit) ↦
              rw (hit, resolve)
                (IsTrue-later FromDjango (delay + 60000) (sch.at k) (sch.at (k + 1))
                  (sch.gap k w).providers ordered met)
          | inl miss ↦ rw (miss, resolve) (keep_resolved-IsFromDjango _ (sch.gap k w) refl met)
        ]

    keep_resolved_returns :
        (result : ResolveResult) (partner : OidcPartnerConfig) (w w' : World r)
        → Returns
            (keep_resolved js django config nonce sch (k + 1) partner_slug result)
            w
            (resolved partner)
            w'
        → result ≡ resolved partner
    unfolding keep_resolved
    keep_resolved_returns (resolved p) partner w w' h = reply_inj (ap (λ x. x.0) h)
    keep_resolved_returns (unresolved reason) partner w w' h = ground arith
    keep_resolved_returns thrown partner w w' h = ground arith

    -- A configuration that a lookup returns is one that Django gave for this very slug when it was
    -- asked, which was not after the lookup began and less than a minute and the delay before that, if
    -- answers of Django come within the delay, here and in the handlers in between.
    pub resolve_recent :
        (t : ℕ) (w w' : World r) (partner : OidcPartnerConfig)
        → t ≤ sch.at k
        → IsFromDjango delay t w
        → Returns (resolve js django config nonce sch k partner_slug) w (resolved partner) w'
        → (asked : ℕ) × (asked ≤ sch.at k)
          × (sch.at k < asked + (delay + 60000))
          × FromDjango partner_slug asked partner
    unfolding resolve
    resolve_recent t w w' partner past h returns =
        elim (Option-cases (fresh (sch.at k) partner_slug (sch.gap k w).providers)) [
          | inr (p, hit) ↦
              let same : resolved p ≡ resolved partner =
                reply_inj (ap (λ x. x.0) (rw (hit, resolve) at returns)) in
              let is_p : p ≡ partner = cc in
              fresh-IsTrue FromDjango (delay + 60000) (sch.at k) (sch.at k) partner_slug
                (sch.gap k w).providers partner (others k t w past h) (hit ∙ ap some is_p)
          | inl miss ↦
              let asked =
                keep_resolved_returns _ partner (sch.gap k w) w' (rw (miss, resolve) at returns) in
              (sch.at k, omega arith, omega arith, (nonce, asked))
        ]

  module _ (nonce : String) {r : Redis} (sch : Schedule r) (k : ℕ) (partner_slug : String) where
    unresolved_returns :
        (result : ResolveResult) (reason : Reason) (w w' : World r)
        → Returns
            (keep_resolved js django config nonce sch (k + 1) partner_slug result)
            w
            (unresolved reason)
            w'
        → (result ≡ unresolved reason) × (w' ≡ sch.gap (k + 1) w)
    unfolding keep_resolved
    unresolved_returns (resolved p) reason w w' h = ground arith
    unresolved_returns (unresolved why) reason w w' h =
        (reply_inj (ap (λ x. x.0) h), ap (λ x. x.1) (sym h))
    unresolved_returns thrown reason w w' h = ground arith

    -- A lookup that fails has asked Django, and gives the reason of this very answer; it keeps
    -- nothing, so that the next lookup asks again.
    pub resolve_fails :
        (w w' : World r) (reason : Reason)
        → Returns (resolve js django config nonce sch k partner_slug) w (unresolved reason) w'
        → (fresh (sch.at k) partner_slug (sch.gap k w).providers ≡ none)
          × (ask js django config nonce (sch.at k) partner_slug ≡ unresolved reason)
          × (w' ≡ sch.gap (k + 1) (sch.gap k w))
    unfolding resolve
    resolve_fails w w' reason returns =
        elim (Option-cases (fresh (sch.at k) partner_slug (sch.gap k w).providers)) [
          | inr (p, hit) ↦
              let same : resolved p ≡ unresolved reason =
                reply_inj (ap (λ x. x.0) (rw (hit, resolve) at returns)) in
              cc
          | inl miss ↦
              let (asked, after) =
                unresolved_returns _ reason (sch.gap k w) w' (rw (miss, resolve) at returns) in
              (miss, asked, after)
        ]
