-- ===== src/Tests/Signing.antt =====
-- Signed requests under the concrete runtime.
use kisauth.Base.{
  String, some, none, str_eq, [], ◌∷◌, ◌≡◌, ◌≢◌, ◌↔◌, refl, arith, false, true, ◌+◌, eq_iff, ◌*◌,
}
use kisauth.Json.{str, bool, obj, field, end}
use kisauth.Signing.{
  Request, ok, effective_skew, verify_internal_signature, signed_internal_headers,
}
use kisauth.Signing.Acceptance.{Acceptable, accepted_iff}
use kisauth.Signing.Replay.{verify_all, replay_refused, replay_accepted}
use kisauth.Signing.RoundTrip.{carrying, verdict, signed_accepted}
use kisauth.Signing.Canonical.{in_obj, swap, verify-reordered}
use kisauth.Signing.Payload.{path_with_query, signature_payload, body_hash, body_text, sign}
use kisauth.Tests.Runtime.{js, js-Prints, before-IsOrder}

pub str_ne : (s t : String) → str_eq s t ≡ false → s ≢ t
str_ne s t h e = ground (arith, (eq_iff s t).1 e)

-- Signed in second 2.
abbrev request : Request
request = carrying "POST" "/v1" none ("n11", "abc", "hkPOST\n/v1\nn11\nabc\n")

acceptable : Acceptable js 2000 2000 request "k" (effective_skew 30) []
unfolding path_with_query signature_payload body_hash body_text sign
acceptable = record {
  timestamp = "n11";
  nonce = "abc";
  path = "/v1";
  has_timestamp = refl;
  has_nonce = refl;
  parsed = refl;
  within = (omega arith, omega arith);
  fresh = tt;
  signed = refl;
}

accepted_iff_example :
    ((verify_internal_signature js 2000 2000 request "k" 30 []).0 ≡ ok)
    ↔ Acceptable js 2000 2000 request "k" (effective_skew 30) []
accepted_iff_example = accepted_iff js 2000 2000 request "k" 30 []

replay_accepted_example :
    (verify_internal_signature js
      (2000 + effective_skew 30 * 1000)
      (2000 + effective_skew 30 * 1000)
      request
      "k"
      30
      (verify_internal_signature js 2000 2000 request "k" 30 []).1).0
    ≡ ok
unfolding acceptable
replay_accepted_example =
    replay_accepted js "k" 30 2000 2000 2 request [] acceptable refl (omega arith) (omega arith)

-- The same request, received in second 3, with the cache read in second 4.
acceptable_later : Acceptable js 3500 4000 request "k" (effective_skew 30) []
unfolding path_with_query signature_payload body_hash body_text sign
acceptable_later = record {
  timestamp = "n11";
  nonce = "abc";
  path = "/v1";
  has_timestamp = refl;
  has_nonce = refl;
  parsed = refl;
  within = (omega arith, omega arith);
  fresh = tt;
  signed = refl;
}

replay_refused_example :
    (verify_internal_signature js 32999 33000 request "k" 30 (
      verify_all js "k" 30
        ((5500, 5501, carrying "GET" "/v2" none ("n11", "x", "y")) ∷ [])
        (verify_internal_signature js 3500 4000 request "k" 30 []).1)).0
    ≢ ok
unfolding acceptable_later
replay_refused_example =
    replay_refused js "k" 30 3500 4000 32999 33000 1000 request request []
      ((5500, 5501, carrying "GET" "/v2" none ("n11", "x", "y")) ∷ []) 2 acceptable_later refl refl
      refl (omega arith) (omega arith) (omega arith, tt)

signed_accepted_example :
    (signed : String × String × String) × (signed_internal_headers js 2000 "abc" "POST" "/v1" none
        "k"
      ≡ some signed)
    × (verdict js js-Prints 9000 9001 (carrying "POST" "/v1" none signed) "k" 30 [] ≡ ok)
unfolding path_with_query
signed_accepted_example =
    signed_accepted js js-Prints 2000 9000 9001 "abc" "POST" "/v1" "/v1" none "k" 30 [] refl
      (str_ne "abc" "" refl) (omega arith) (omega arith) tt

verify-reordered_example :
    verify_internal_signature js 2000 2000
      (record request { body = some (obj (field "a" (bool true) (field "b" (str "x") end))) })
      "k"
      30
      []
    ≡ verify_internal_signature js 2000 2000
        (record request { body = some (obj (field "b" (str "x") (field "a" (bool true) end))) })
        "k"
        30
        []
verify-reordered_example =
    verify-reordered js before-IsOrder 2000 2000 request "k" 30 [] _ _
      (in_obj (swap (str_ne "a" "b" refl)))
