-- ===== src/Tests/Identity.antt =====
-- Links, clients and claims on small tables.
use kisauth.Base.{String, Option, some, none, [], ◌∷◌, ◌≡◌, refl, true, false}
use kisauth.Identity.{
  Row, Rows, AuthIdentity, LinkArgs, linked, active, link, insert_link, find_by_provider_subject,
}
use kisauth.Identity.Bindings.{Extends, link_keeps_bindings}
use kisauth.Oauth.Authorize.{is_partner_slug}
use kisauth.Oauth.Tenant.{composite_oidc_subject_inj}

abbrev as_is : String → Option String
as_is s = some s

abbrev args : LinkArgs
args = record {
  provider = "google";
  provider_subject = "g2";
  kis_user_id = "u2";
  provider_email = some "a@b";
  provider_email_verified = true;
}

abbrev other : Row
other = record {
  identity = record {
    id = "i1";
    provider = "google";
    provider_subject = "g1";
    kis_user_id = "u1";
    provider_email = none;
    provider_email_verified = false;
    status = active;
  };
  last_authenticated_at = none;
}

abbrev rows : Rows
rows = other ∷ []

abbrev made : AuthIdentity
made = record {
  id = "i2";
  provider = "google";
  provider_subject = "g2";
  kis_user_id = "u2";
  provider_email = some "a@b";
  provider_email_verified = true;
  status = active;
}

first_link : (link as_is 7 "i2" (λ r. r) args rows).0 ≡ linked made
unfolding link insert_link find_by_provider_subject
first_link = refl

kept : (table : Rows) → Extends table table
kept table provider subject i h = (i, h, refl, refl)

link_keeps_bindings_example : Extends rows (link as_is 7 "i2" (λ r. r) args rows).1
link_keeps_bindings_example = link_keeps_bindings as_is 7 "i2" (λ r. r) args rows (kept rows)

abbrev tenant : String
tenant = "acme-1"

abbrev member_of : String
member_of = "u:1"

slug_ok : is_partner_slug tenant ≡ true
unfolding is_partner_slug
slug_ok = refl

composite_oidc_subject_inj_example : (tenant ≡ tenant) × (member_of ≡ member_of)
composite_oidc_subject_inj_example =
    composite_oidc_subject_inj tenant tenant member_of member_of slug_ok slug_ok refl
