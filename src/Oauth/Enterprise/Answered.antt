-- ===== src/Oauth/Enterprise/Answered.antt =====
-- Every redirection of GET /oauth/enterprise/:partnerSlug/callback
-- (src/oauth/oidc-enterprise.controller.ts) belongs to the session of the browser and to its partner.
use kisauth.Base.{
  true, String, Option, none, some, ◌≡◌, refl, arith, inl, inr, ◌⊎◌, Option-cases, ◌≢◌, [], ◌∷◌,
}
use kisauth.Js.{Js}
use kisauth.Redis.{Redis}
use kisauth.Records.{OAuthSession}
use kisauth.Signing.{given}
use kisauth.Session.{get_session}
use kisauth.Partner.{OidcPartnerConfig, DiscoveryDocument}
use kisauth.Providers.{resolved, resolve}
use kisauth.Discovery.{fetch_discovery}
use kisauth.Service.{Config, World, Schedule}
use kisauth.Service.Laws.{Returns, bind_returns}
use kisauth.Oauth.Outcome.{VerifiedProviderIdentity, Randoms}
use kisauth.Oauth.Callback.{CallbackRequest, has_state, read_callback}
use kisauth.Oauth.Returned.{has_state-given, read_callback_inv, given_inv}
use kisauth.Google.{verify_oidc_id_token}
use kisauth.Oauth.Tenant.{composite_oidc_subject}
use kisauth.Oauth.Enterprise.{Outside}
use kisauth.Oauth.Enterprise.Admitted.{
  partner_session_returns, resolve_or_fail_returns, discover_or_fail_returns,
}
use kisauth.Oauth.Enterprise.Exchange.{
  Vouching, vouched, not_verified, not_exchanged, exchange_partner_code, verify_partner,
  ask_partner, tenant_identity,
}
use kisauth.Oauth.Enterprise.Callback.{
  finish_partner, settle, redeem_partner_code, go_on_partner, answer_partner,
  handle_enterprise_callback,
}
use kisauth.Oauth.Enterprise.Finished.{
  LeadsTo, IsFailed, IsCancelled, IsFailed-LeadsTo, IsCancelled-LeadsTo, give_up_partner_returns,
  cancel_partner_returns, finish_partner_returns,
}

module _ (js : Js) (out : Outside js) {r : Redis} (sch : Schedule r) (config : Config)
    (random : Randoms) (nonce partner_slug : String) (req : CallbackRequest) where
  -- The outcome is finished, in a state, for an identity for which the provider of this partner, as
  -- Django and the discovery document name it, has vouched in answer to the code and the verifier,
  -- with the nonce of the session; and it is finished under the key of the tenant.
  pub record IsVouchedBy (session_id : String) (session : OAuthSession) (url : String)
      (w' : World r) : Type 0 where
    pub code : String
    pub verifier : String
    pub partner : OidcPartnerConfig
    pub doc : DiscoveryDocument
    pub verified : VerifiedProviderIdentity
    pub asking : World r
    pub reading : World r
    pub finishing : World r
    pub has_code : given req.code ≡ some code
    pub has_verifier : given session.code_verifier ≡ some verifier
    pub is_partner :
        Returns
          (resolve js out.django config nonce sch 2 partner_slug)
          asking
          (resolved partner)
          reading
    pub is_document :
        Returns
          (fetch_discovery out.document sch 4 partner.discovery_url)
          reading
          (some doc)
          finishing
    pub id_token : String
    pub keys : js.Url
    pub exchanged :
        exchange_partner_code js out config partner_slug partner doc code verifier ≡ some id_token
    pub has_keys : js.parse_url doc.jwks_uri ≡ some keys
    pub vouches :
        verify_oidc_id_token
          (out.jwt_verify keys)
          id_token
          (partner.issuer ∷ [])
          partner.client_id
          session.nonce
        ≡ some verified
    pub finished :
        Returns
          (finish_partner js out sch config random nonce partner_slug req session_id session
            (record verified { sub = composite_oidc_subject partner_slug verified.sub }))
          finishing
          url
          w'

  -- The provider of this partner has vouched for no identity in answer to the code, and the browser is
  -- told so.
  abbrev pub IsRefusedBy : OAuthSession → String → Type 0
  IsRefusedBy session url =
      (code verifier : String) × (partner : OidcPartnerConfig) × (doc : DiscoveryDocument) × (given
          req.code
        ≡ some code)
      × (given session.code_verifier ≡ some verifier)
      × ((verified : VerifiedProviderIdentity)
          → ask_partner js out config partner_slug partner doc code verifier session.nonce
            ≢ vouched verified)
      × IsFailed js out sch config random nonce partner_slug req session url

  -- How a callback with a live session ended: the provider reported an error, and the browser is told
  -- so; or it would not vouch for an identity in answer to the code; or it vouched for one.
  abbrev pub Course : (session_id : String) → OAuthSession → String → World r → Type 0
  Course session_id session url w' =
      ((error : String) × (given req.error ≡ some error)
        × IsCancelled js out sch config random nonce partner_slug req error session url)
      ⊎ (IsRefusedBy session url ⊎ IsVouchedBy session_id session url w')

  abbrev Leads : OAuthSession → String → Type 0
  Leads session url = LeadsTo js out sch config random nonce partner_slug req session url

  -- What an identity that the provider vouched for rests on.
  ask_partner_inv :
      (partner : OidcPartnerConfig) (doc : DiscoveryDocument) (code verifier nonce' : String)
      (verified : VerifiedProviderIdentity)
      → ask_partner js out config partner_slug partner doc code verifier nonce' ≡ vouched verified
      → (id_token : String) × (keys : js.Url) × (exchange_partner_code js out config partner_slug
            partner doc code verifier
          ≡ some id_token)
        × (js.parse_url doc.jwks_uri ≡ some keys)
        × (verify_oidc_id_token
              (out.jwt_verify keys)
              id_token
              (partner.issuer ∷ [])
              partner.client_id
              nonce'
            ≡ some verified)
  unfolding ask_partner verify_partner
  ask_partner_inv partner doc code verifier nonce' verified h =
      elim (Option-cases
        (exchange_partner_code js out config partner_slug partner doc code verifier)) [
          | inl failed ↦ ground arith
          | inr (id_token, exchanged) ↦ elim (Option-cases (js.parse_url doc.jwks_uri)) [
            | inl bad ↦ ground arith
            | inr (keys, parsed) ↦
                elim (Option-cases (
                  verify_oidc_id_token (out.jwt_verify keys) id_token (partner.issuer ∷ [])
                    partner.client_id nonce')) [
                      | inl refused ↦ ground arith
                      | inr (v, e) ↦ (id_token, keys, exchanged, parsed, ground arith)
                    ]
          ]
        ]

  settle_returns :
      (session_id : String) (session : OAuthSession) (code verifier : String)
      (partner : OidcPartnerConfig) (doc : DiscoveryDocument) (vouching : Vouching)
      (w₁ w₂ w w' : World r) (url : String)
      → given req.code ≡ some code
      → given session.code_verifier ≡ some verifier
      → Returns (resolve js out.django config nonce sch 2 partner_slug) w₁ (resolved partner) w₂
      → Returns (fetch_discovery out.document sch 4 partner.discovery_url) w₂ (some doc) w
      → ask_partner js out config partner_slug partner doc code verifier session.nonce ≡ vouching
      → Returns
          (settle js out sch config random nonce partner_slug req session_id session vouching)
          w
          url
          w'
      → Course session_id session url w' × Leads session url
  unfolding settle
  settle_returns session_id session code verifier partner doc (vouched verified) w₁ w₂ w w' url c v
        p d e h =
      let (id_token, keys, exchanged, has_keys, vouches) =
        ask_partner_inv partner doc code verifier session.nonce verified e in
      (
        inr (
            inr (record {
              code = code;
              verifier = verifier;
              partner = partner;
              doc = doc;
              verified = verified;
              asking = w₁;
              reading = w₂;
              finishing = w;
              has_code = c;
              has_verifier = v;
              is_partner = p;
              is_document = d;
              id_token = id_token;
              keys = keys;
              exchanged = exchanged;
              has_keys = has_keys;
              vouches = vouches;
              finished = h;
            })),
        finish_partner_returns js out sch config random nonce partner_slug req session_id session
            (tenant_identity partner_slug verified) w w' url h,
      )
  settle_returns session_id session code verifier partner doc not_verified w₁ w₂ w w' url c v p d e
        h =
      let told =
        give_up_partner_returns js out sch config random nonce partner_slug req session_id _ session
          w w' url h in
      (
        inr (inl (code, verifier, partner, doc, c, v, (λ x y. cc (e, y)), told)),
        IsFailed-LeadsTo js out sch config random nonce partner_slug req session url told,
      )
  settle_returns session_id session code verifier partner doc not_exchanged w₁ w₂ w w' url c v p d e
        h =
      let told =
        give_up_partner_returns js out sch config random nonce partner_slug req session_id _ session
          w w' url h in
      (
        inr (inl (code, verifier, partner, doc, c, v, (λ x y. cc (e, y)), told)),
        IsFailed-LeadsTo js out sch config random nonce partner_slug req session url told,
      )

  redeem_returns :
      (session_id : String) (session : OAuthSession) (code verifier : String) (w w' : World r)
      (url : String)
      → given req.code ≡ some code
      → given session.code_verifier ≡ some verifier
      → Returns
          (redeem_partner_code js out sch config random nonce partner_slug req session_id session
            code verifier)
          w
          url
          w'
      → Course session_id session url w' × Leads session url
  unfolding redeem_partner_code
  redeem_returns session_id session code verifier w w' url c v h =
      let (partner, w₁, p, h₁) = bind_returns _ _ w url w' h in
      let (doc, w₂, d, h₂) = bind_returns _ _ w₁ url w' h₁ in
      settle_returns session_id session code verifier partner doc _ w w₁ w₂ w' url c v
        (resolve_or_fail_returns js out sch config nonce partner_slug req.ip 2 session_id session
          partner w w₁ p)
        (discover_or_fail_returns js out sch config nonce partner_slug req.ip 4 session_id session
          partner.discovery_url doc w₁ w₂ d)
        refl h₂

  answer_partner_returns :
      (error : Option String) (session_id : String) (session : OAuthSession) (w w' : World r)
      (url : String)
      → given req.error ≡ error
      → Returns
          (answer_partner js out sch config random nonce partner_slug req error
            (session_id, session))
          w
          url
          w'
      → (has_state req.state session ≡ true) × Course session_id session url w' × Leads session url
  unfolding answer_partner go_on_partner
  answer_partner_returns (some error) session_id session w w' url e h =
      let (same, told) =
        cancel_partner_returns js out sch config random nonce partner_slug req session_id error
          session w w' url h in
      (
        same,
        inl (error, e, told),
        IsCancelled-LeadsTo js out sch config random nonce partner_slug req error session url told,
      )
  answer_partner_returns none session_id session w w' url e h =
      elim (Option-cases
        (read_callback (given req.code) (given req.state) (given session.code_verifier) session)) [
          | inl bad ↦ ground arith
          | inr ((code, verifier), read) ↦
              let (c, v, same) = read_callback_inv _ _ _ session code verifier read in
              let (course, leads) =
                redeem_returns session_id session code verifier w w' url c v
                  (rw (read, go_on_partner) at h) in
              (has_state-given req.state session same, course, leads)
        ]

  -- The session of the cookie, live when it was read, created for the partner of the path and with
  -- the state that the callback carries; how the callback ended; and where it leads.
  pub record AnsweredFor (url : String) (w' : World r) : Type 0 where
    pub session_id : String
    pub session : OAuthSession
    pub before : World r
    pub has_cookie : req.cookie ≡ some session_id
    pub live : get_session r (sch.at 1) session_id (sch.gap 1 before).redis ≡ some session
    pub same_partner : session.partner_slug ≡ some partner_slug
    pub same_state : has_state req.state session ≡ true
    pub course : Course session_id session url w'
    pub leads : Leads session url

  -- GET /oauth/enterprise/:partnerSlug/callback redirects only a browser whose cookie names a live
  -- session that was created for this very partner and has the state of the callback, and only to the
  -- status page with the redirect URI of that session, told of a failure if the provider reports an
  -- error or vouches for no identity; an outcome is finished only for an identity
  -- for which the provider that Django and the discovery document name for the partner has vouched,
  -- with the nonce of the session, in answer to the code of the callback and the verifier of the
  -- session, and under the subject that carries the partner's slug.
  pub enterprise_callback-AnsweredFor :
      (w w' : World r) (url : String)
      → Returns
          (handle_enterprise_callback js out sch config random nonce partner_slug req)
          w
          url
          w'
      → AnsweredFor url w'
  unfolding handle_enterprise_callback
  enterprise_callback-AnsweredFor w w' url h =
      let (_, w₁, _, h₁) = bind_returns _ _ w url w' h in
      let ((id, session), w₂, read, h₂) = bind_returns _ _ w₁ url w' h₁ in
      let (has, live, slug) =
        partner_session_returns js out sch config nonce partner_slug req.ip (given req.cookie) id
          session w₁ w₂ read in
      let (same, course, leads) = answer_partner_returns _ id session w₂ w' url refl h₂ in
      record {
        session_id = id;
        session = session;
        before = w₁;
        has_cookie = given_inv req.cookie id has;
        live = live;
        same_partner = slug;
        same_state = same;
        course = course;
        leads = leads;
      }
