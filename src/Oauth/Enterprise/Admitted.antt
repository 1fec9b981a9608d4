-- ===== src/Oauth/Enterprise/Admitted.antt =====
-- What it takes to pass the first steps of src/oauth/oidc-enterprise.controller.ts.
use kisauth.Base.{
  ℕ, ◌+◌, true, String, Option, none, some, ◌≡◌, arith, inl, inr, ap, Bool-cases, eq_iff, sym, ◌∙◌,
}
use kisauth.Js.{Js}
use kisauth.Redis.{Redis}
use kisauth.Records.{OAuthSession}
use kisauth.Session.{get_session}
use kisauth.Partner.{OidcPartnerConfig, DiscoveryDocument}
use kisauth.Providers.{ResolveResult, resolved, unresolved, thrown, resolve}
use kisauth.Discovery.{fetch_discovery}
use kisauth.Service.{Config, World, Schedule}
use kisauth.Service.Laws.{Returns, bind_returns, reply_inj}
use kisauth.Oauth.Started.{read_session_returns}
use kisauth.Oauth.Enterprise.{
  Outside, is_slug, keep_to_partner, partner_session, fail_config, config_or_fail, resolve_or_fail,
  document_or_fail, discover_or_fail,
}

is_slug-some : (slug : String) (o : Option String) → is_slug slug o ≡ true → o ≡ some slug
is_slug-some slug none h = ground arith
is_slug-some slug (some s) h = ap some ((eq_iff s slug).0 h)

module _ (js : Js) (out : Outside js) {r : Redis} (sch : Schedule r) (config : Config)
    (nonce partner_slug ip : String) where
  fail_config_never :
      {A : Type 0} (k : ℕ) (session_id reason : String) (session : OAuthSession) (w w' : World r)
      (a : A)
      → Returns
          (fail_config js out sch config nonce partner_slug ip k session_id reason session)
          w
          a
          w'
      → ⊥
  unfolding fail_config
  fail_config_never k session_id reason session w w' a h =
      let (_, w₁, _, h₁) = bind_returns _ _ w a w' h in
      let (_, w₂, _, h₂) = bind_returns _ _ w₁ a w' h₁ in ground arith

  keep_to_partner_returns :
      (found : String × OAuthSession) (id : String) (s : OAuthSession) (w w' : World r)
      → Returns (keep_to_partner js out sch config nonce partner_slug ip found) w (id, s) w'
      → (found ≡ (id, s)) × (s.partner_slug ≡ some partner_slug)
  unfolding keep_to_partner
  keep_to_partner_returns (id', s') id s w w' h =
      elim (Bool-cases (is_slug partner_slug s'.partner_slug)) [
        | inr other ↦ ground arith
        | inl same ↦
            let e : ◌≡◌ {A = String × OAuthSession} (id', s') (id, s) =
              reply_inj (ap (λ x. x.0) (rw (same, keep_to_partner) at h)) in
            (e, ap (λ x. x.1.partner_slug) (sym e) ∙ is_slug-some partner_slug s'.partner_slug same)
      ]

  pub partner_session_returns :
      (cookie : Option String) (id : String) (s : OAuthSession) (w w' : World r)
      → Returns (partner_session js out sch config nonce partner_slug ip cookie) w (id, s) w'
      → (cookie ≡ some id)
        × (get_session r (sch.at 1) id (sch.gap 1 w).redis ≡ some s)
        × (s.partner_slug ≡ some partner_slug)
  unfolding partner_session
  partner_session_returns cookie id s w w' h =
      let (found, w₁, read, h₁) = bind_returns _ _ w (id, s) w' h in
      let (same, slug) = keep_to_partner_returns found id s w₁ w' h₁ in
      let (has, live) = read_session_returns js sch config cookie id s w w₁ (rw same at read) in
      (has, live, slug)

  config_or_fail_returns :
      (k : ℕ) (session_id : String) (session : OAuthSession) (result : ResolveResult)
      (partner : OidcPartnerConfig) (w w' : World r)
      → Returns
          (config_or_fail js out sch config nonce partner_slug ip k session_id session result)
          w
          partner
          w'
      → (result ≡ resolved partner) × (w ≡ w')
  unfolding config_or_fail
  config_or_fail_returns k session_id session (resolved p) partner w w' h =
      (ap resolved (reply_inj (ap (λ x. x.0) h)), ap (λ x. x.1) h)
  config_or_fail_returns k session_id session (unresolved reason) partner w w' h =
      absurd (fail_config_never k session_id _ session w w' partner h)
  config_or_fail_returns k session_id session thrown partner w w' h = ground arith

  pub resolve_or_fail_returns :
      (k : ℕ) (session_id : String) (session : OAuthSession) (partner : OidcPartnerConfig)
      (w w' : World r)
      → Returns
          (resolve_or_fail js out sch config nonce partner_slug ip k session_id session)
          w
          partner
          w'
      → Returns (resolve js out.django config nonce sch k partner_slug) w (resolved partner) w'
  unfolding resolve_or_fail
  resolve_or_fail_returns k session_id session partner w w' h =
      let (result, w₁, asked, h₁) = bind_returns _ _ w partner w' h in
      let (same, after) =
        config_or_fail_returns (k + 2) session_id session result partner w₁ w' h₁ in
      rw (same, after) at asked

  document_or_fail_returns :
      (k : ℕ) (session_id : String) (session : OAuthSession) (found : Option DiscoveryDocument)
      (doc : DiscoveryDocument) (w w' : World r)
      → Returns
          (document_or_fail js out sch config nonce partner_slug ip k session_id session found)
          w
          doc
          w'
      → (found ≡ some doc) × (w ≡ w')
  unfolding document_or_fail
  document_or_fail_returns k session_id session none doc w w' h =
      absurd (fail_config_never k session_id _ session w w' doc h)
  document_or_fail_returns k session_id session (some d) doc w w' h =
      (ap some (reply_inj (ap (λ x. x.0) h)), ap (λ x. x.1) h)

  pub discover_or_fail_returns :
      (k : ℕ) (session_id : String) (session : OAuthSession) (discovery_url : String)
      (doc : DiscoveryDocument) (w w' : World r)
      → Returns
          (discover_or_fail js out sch config nonce partner_slug ip k session_id session
            discovery_url)
          w
          doc
          w'
      → Returns (fetch_discovery out.document sch k discovery_url) w (some doc) w'
  unfolding discover_or_fail
  discover_or_fail_returns k session_id session discovery_url doc w w' h =
      let (found, w₁, asked, h₁) = bind_returns _ _ w doc w' h in
      let (same, after) = document_or_fail_returns (k + 2) session_id session found doc w₁ w' h₁ in
      rw (same, after) at asked
