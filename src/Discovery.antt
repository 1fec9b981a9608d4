-- ===== src/Discovery.antt =====
-- src/oauth/oidc-discovery.service.ts: the discovery document of an identity provider, kept for
-- five minutes.
use kisauth.Base.{ℕ, ◌+◌, String, Option, none, some, if◌then◌else◌}
use kisauth.Json.{Json, string_field}
use kisauth.Records.{◌>>=◌}
use kisauth.Redis.{Redis}
use kisauth.Memo.{fresh, keep}
use kisauth.Partner.{DiscoveryDocument, Answer, is_ok}
use kisauth.Service.{Schedule, Handler, reply}

abbrev pub cache_ttl_ms : ℕ
cache_ttl_ms = 300000

-- The document of a body with the three fields that are required. `null` throws like any other
-- incomplete body.
unfoldable pub complete_document : Json → Option DiscoveryDocument
complete_document body = do
  authorization_endpoint ← string_field "authorization_endpoint" body
  token_endpoint ← string_field "token_endpoint" body
  jwks_uri ← string_field "jwks_uri" body
  some (record {
    authorization_endpoint = authorization_endpoint;
    token_endpoint = token_endpoint;
    jwks_uri = jwks_uri;
    issuer = string_field "issuer" body;
  })

unfoldable pub read_document : Answer → Option DiscoveryDocument
read_document answer = if is_ok answer then answer.body >>= complete_document else none

-- `get` is fetch, at the time of the request, `none` where it throws. An error of fetchDiscovery,
-- which every caller catches whatever it is, is `none`.
module _ (get : (at : ℕ) → (url : String) → Option Answer) where
  unfoldable pub ask_document : (at : ℕ) → (discovery_url : String) → Option DiscoveryDocument
  ask_document at discovery_url = get at discovery_url >>= read_document

  module _ {r : Redis} (sch : Schedule r) where
    unfoldable pub keep_document :
        (k : ℕ)
        → (discovery_url : String) → Option DiscoveryDocument
        → Handler r (Option DiscoveryDocument)
    keep_document k discovery_url none w = (reply none, sch.gap k w)
    keep_document k discovery_url (some doc) w =
        let now = sch.gap k w in
        (
          reply (some doc),
          record now { documents = keep (sch.at k) cache_ttl_ms discovery_url doc now.documents },
        )

    -- Step k looks into the cache and asks; step k + 1 has the answer.
    unfoldable pub fetch_discovery :
        (k : ℕ) → (discovery_url : String) → Handler r (Option DiscoveryDocument)
    fetch_discovery k discovery_url w =
        let now = sch.gap k w in
        elim (fresh (sch.at k) discovery_url now.documents) [
          | some doc ↦ (reply (some doc), now)
          | none ↦ keep_document (k + 1) discovery_url (ask_document (sch.at k) discovery_url) now
        ]
