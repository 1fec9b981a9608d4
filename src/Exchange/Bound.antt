-- ===== src/Exchange/Bound.antt =====
-- What stands behind every success of POST /internal/v1/identity/link
-- (src/exchange/identity-link.controller.ts).
use kisauth.Base.{
  ℕ, ◌+◌, String, Option, some, none, ◌≡◌, refl, sym, ap, ◌∙◌, arith, Option-cases, inl, inr,
}
use mathlib.Core.Path.{subst}
use kisauth.Js.{Js}
use kisauth.Redis.{Redis}
use kisauth.Signing.{given, VerifyResult, ok, refused, thrown}
use kisauth.Identity.{
  AuthIdentity, LinkArgs, LinkResult, linked, already_linked, fault, link, find_by_provider_subject,
}
use kisauth.Identity.Table.{IsUnique}
use kisauth.Identity.Bindings.{Extends}
use kisauth.Identity.Linked.{IsFor, link_finds}
use kisauth.Service.{Config, World, Schedule, ◌>>=◌}
use kisauth.Service.Laws.{Returns, bind_returns, emit_returns, reply_inj}
use kisauth.Exchange.Admission.{IsSigned, authenticate-IsSigned}
use kisauth.Exchange.Link.{
  LinkRequest, link_url, link_success, link_identity, read_link_args, require_args, answer_link,
  handle_link,
}
use kisauth.Exchange.{accept_signature, verify_request, authenticate}

module _ (js : Js) (uuid : String → Option String) {r : Redis} (sch : Schedule r)
    (config : Config) where
  -- While the handler waits, other connections break no constraint and no binding.
  abbrev pub IsCareful : Type 0
  IsCareful =
      (k : ℕ) (w : World r)
      → IsUnique w.identities
      → IsUnique (sch.gap k w).identities × Extends w.identities (sch.gap k w).identities

  -- The request is signed and names the provider account that the row with the answered id binds to
  -- the KIS account.
  pub record Bound (req : LinkRequest) (w : World r) (id : String) (w' : World r) : Type 0 where
    pub args : LinkArgs
    pub identity : AuthIdentity
    pub signed : IsSigned js sch config 0 link_url req.body req.headers w
    pub asked :
        read_link_args (given req.provider) (given req.provider_subject) (given req.kis_user_id) req
        ≡ some args
    pub found :
        find_by_provider_subject args.provider args.provider_subject w'.identities ≡ some identity
    pub same_id : identity.id ≡ id
    pub for_account : IsFor uuid args identity

  require_args_returns :
      (req : LinkRequest) (args : LinkArgs) (w w' : World r)
      → Returns (require_args js uuid sch config req) w args w'
      → (read_link_args
            (given req.provider)
            (given req.provider_subject)
            (given req.kis_user_id)
            req
          ≡ some args)
        × (w'.identities ≡ w.identities)
  unfolding require_args
  require_args_returns req args w w' h =
      elim (Option-cases (
        read_link_args (given req.provider) (given req.provider_subject) (given req.kis_user_id)
          req)) [ inl missing ↦ ground arith | inr (read, e) ↦ ground arith ]

  accept_signature_keeps :
      (result : VerifyResult) (w w' : World r)
      → Returns (accept_signature js sch config none result) w tt w'
      → w'.identities ≡ w.identities
  unfolding accept_signature
  accept_signature_keeps ok w w' h = ap (λ x. x.1.identities) (sym h)
  accept_signature_keeps (refused reason) w w' h = ground arith
  accept_signature_keeps thrown w w' h = ground arith

  authenticate_keeps :
      (req : LinkRequest) (w w' : World r)
      → Returns (authenticate js sch config 0 link_url req.body req.headers none) w tt w'
      → w'.identities ≡ (sch.gap 0 w).identities
  unfolding authenticate verify_request
  authenticate_keeps req w w' h =
      let (result, w'', verified, rest) =
        bind_returns (verify_request js sch config 0 link_url req.body req.headers) _ w tt w' h in
      accept_signature_keeps result w'' w' rest ∙ ap (λ x. x.1.identities) (sym verified)

  answer_link_returns :
      (args : LinkArgs) (result : LinkResult) (id : String) (w w' : World r)
      → Returns (answer_link js uuid sch config args result) w id w'
      → (i : AuthIdentity) × (result ≡ linked i) × (i.id ≡ id) × (w'.identities ≡ w.identities)
  unfolding answer_link ◌>>=◌
  answer_link_returns args (linked identity) id w w' h = (
    identity,
    refl,
    (emit_returns (link_success args) identity.id id w w' h).0,
    ap (λ x. x.1.identities) (sym h),
  )
  answer_link_returns args already_linked id w w' h = ground arith
  answer_link_returns args fault id w w' h = ground arith

  link_identity_returns :
      (k : ℕ) (fresh_id : String) (args : LinkArgs) (w w' : World r) (result : LinkResult)
      → Returns (link_identity js uuid sch config k fresh_id args) w result w'
      → let before = sch.gap k w in
        let after = sch.gap (k + 1) before in
        let linking =
          link uuid (sch.at (k + 1)) fresh_id (λ _. after.identities) args before.identities in
        (linking.0 ≡ result) × (w'.identities ≡ linking.1)
  unfolding link_identity
  link_identity_returns k fresh_id args w w' result h =
      (reply_inj (ap (λ x. x.0) h), ap (λ x. x.1.identities) (sym h))

  -- A link that is answered with an id was asked for by a signed request, and the row with that id
  -- then binds the provider account of the request to its KIS account, if the table breaks no
  -- constraint and other connections break no constraint and no binding while the handler waits.
  pub success-Bound :
      (fresh_id : String) (req : LinkRequest) (w w' : World r) (id : String)
      → IsUnique w.identities
      → IsCareful
      → Returns (handle_link js uuid sch config fresh_id req) w id w'
      → Bound req w id w'
  unfolding handle_link
  success-Bound fresh_id req w w' id unique_before careful h =
      let (_, w₁, signed, h₁) = bind_returns _ _ w id w' h in
      let (args, w₂, asked, h₂) = bind_returns _ _ w₁ id w' h₁ in
      let (result, w₃, done, h₃) = bind_returns _ _ w₂ id w' h₂ in
      let (identity, is_linked, same_id, kept) = answer_link_returns args result id w₃ w' h₃ in
      let before = sch.gap 1 w₂ in
      let after = sch.gap 2 before in
      let (asked', same_rows) = require_args_returns req args w₁ w₂ asked in
      let start : IsUnique w₂.identities =
        subst IsUnique (sym (same_rows ∙ authenticate_keeps req w w₁ signed))
          (careful 0 w unique_before).0 in
      let (unique, meanwhile) = careful 2 before (careful 1 w₂ start).0 in
      let (result_is, rows) = link_identity_returns 1 fresh_id args w₂ w₃ result done in
      let (found, for_account) =
        link_finds uuid (sch.at 2) fresh_id (λ _. after.identities) args before.identities identity
          unique meanwhile (result_is ∙ is_linked) in
      record {
        args = args;
        identity = identity;
        signed =
            authenticate-IsSigned js sch config 0 link_url req.body req.headers none w w₁ signed;
        asked = asked';
        found =
            ap (find_by_provider_subject args.provider args.provider_subject) (kept ∙ rows) ∙ found;
        same_id = same_id;
        for_account = for_account;
      }
