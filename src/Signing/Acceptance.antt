-- ===== src/Signing/Acceptance.antt =====
-- When verifyInternalSignature of src/security/internal-signing.ts accepts a request.
use kisauth.Base.{
  ℕ, suc, ◌+◌, ◌/◌, ◌≤◌, ◌<◌, true, false, String, Option, some, [], ◌∷◌, ◌≡◌, ◌*◌, ◌↔◌, refl,
  arith, eq_iff, str_eq, inl, inr, Bool-cases, Option-cases, All, leb,
}
use kisauth.Base.Int.{pos, negsuc}
use kisauth.Base.Number.{Number, nan, infinite, whole, between}
use kisauth.Js.{Js}
use kisauth.LinkTicket.Genuine.{same_bytes_iff}
use kisauth.Signing.{
  VerifyResult, ok, Request, Cache, first_header, given, sweep, has, outside_window, is_finite,
  effective_skew, timestamp_header, nonce_header, signature_header, check_signature, check_time,
  check_headers, verify_internal_signature,
}
use kisauth.Signing.Payload.{body_hash, path_with_query, signature_payload, sign}

-- A time at most the skew away from the second `now`.
abbrev pub IsWithin : ℕ → Number → ℕ → Type 0
IsWithin now (whole (pos ts)) skew = (now ≤ ts + skew) × (ts ≤ now + skew)
IsWithin now (whole (negsuc ts)) skew = now + suc ts ≤ skew
IsWithin now (between (pos ts)) skew = (now < suc ts + skew) × (ts < now + skew)
IsWithin now (between (negsuc ts)) skew = now + ts < skew
IsWithin now _ skew = ⊥

IsWithin-iff :
    (now : ℕ) (ts : Number) (skew : ℕ)
    → ((is_finite ts ≡ true) × (outside_window now ts skew ≡ false)) ↔ IsWithin now ts skew
unfolding outside_window
IsWithin-iff now nan skew = ground arith
IsWithin-iff now (infinite b) skew = ground arith
IsWithin-iff now (whole (pos ts)) skew = ground arith
IsWithin-iff now (whole (negsuc ts)) skew = ground arith
IsWithin-iff now (between (pos ts)) skew = ground arith
IsWithin-iff now (between (negsuc ts)) skew = ground arith

-- No entry that is still remembered at `now` is for the nonce.
abbrev pub IsFresh : ℕ → String → Cache → Type 0
IsFresh now nonce = All (λ e. e.0 ≡ nonce → e.1 ≤ now)

IsFresh-iff :
    (now : ℕ) (nonce : String) (cache : Cache)
    → (has nonce (sweep now cache) ≡ false) ↔ IsFresh now nonce cache
IsFresh-iff now nonce [] = ground arith
IsFresh-iff now nonce ((n, t) ∷ rest) =
    let (to, from) = IsFresh-iff now nonce rest in
    elim (Bool-cases (leb t now)) [
      | inl old ↦ rw old ((λ h. ((λ _. ground arith), to h)), λ h. from h.1)
      | inr live ↦ elim (Bool-cases (str_eq n nonce)) [
        | inl same ↦
            rw (live, same)
              (λ h. cc, λ h. let bad : t ≤ now = h.0 ((eq_iff n nonce).0 same) in ground arith)
        | inr other ↦
            rw (live, other) (λ h. ((λ e. cc ((eq_iff n nonce).1 e)), to h), λ h. from h.1)
      ]
    ]

module _ (js : Js) where
  -- What an accepted request has shown: the three headers, a time within the skew, a nonce that
  -- is not remembered, and the HMAC of the request under the secret.
  pub record Acceptable (checked_ms now_ms : ℕ) (req : Request) (secret : String) (skew : ℕ)
      (cache : Cache) : Type 0 where
    pub timestamp : String
    pub nonce : String
    pub path : String
    pub has_timestamp : given (first_header (req.headers timestamp_header)) ≡ some timestamp
    pub has_nonce : given (first_header (req.headers nonce_header)) ≡ some nonce
    pub parsed : path_with_query js req.url ≡ some path
    pub within : IsWithin (checked_ms / 1000) (js.to_number timestamp) skew
    pub fresh : IsFresh now_ms nonce cache
    pub signed :
        given (first_header (req.headers signature_header))
        ≡ some (
            sign js secret
              (signature_payload js req.method path timestamp nonce (body_hash js req.body)))

  module _ (checked_ms now_ms : ℕ) (req : Request) (secret : String) (skew : ℕ)
      (cache : Cache) where
    check_signature_sound :
        (timestamp nonce signature : String)
        → (check_signature js now_ms skew req timestamp nonce signature secret cache).0 ≡ ok
        → (path : String) × (has nonce (sweep now_ms cache) ≡ false)
          × (path_with_query js req.url ≡ some path)
          × (sign js secret
                (signature_payload js req.method path timestamp nonce (body_hash js req.body))
              ≡ signature)
    unfolding check_signature
    check_signature_sound timestamp nonce signature e =
        elim (Option-cases (path_with_query js req.url)) [
          | inl failed ↦ ground arith
          | inr (path, parsed) ↦
              (path, ground arith, parsed, (same_bytes_iff _ signature).0 (ground arith))
        ]

    check_time_sound :
        (timestamp nonce signature : String)
        → (check_time js checked_ms now_ms skew req timestamp nonce signature secret cache).0 ≡ ok
        → IsWithin (checked_ms / 1000) (js.to_number timestamp) skew
          × ((check_signature js now_ms skew req timestamp nonce signature secret cache).0 ≡ ok)
    unfolding check_time
    check_time_sound timestamp nonce signature e =
        ((IsWithin-iff _ _ skew).0 (ground arith, ground arith), ground arith)

    check_headers_sound :
        (timestamp nonce signature : Option String)
        → given (first_header (req.headers timestamp_header)) ≡ timestamp
        → given (first_header (req.headers nonce_header)) ≡ nonce
        → given (first_header (req.headers signature_header)) ≡ signature
        → (check_headers js checked_ms now_ms skew req timestamp nonce signature secret cache).0
          ≡ ok
        → Acceptable checked_ms now_ms req secret skew cache
    unfolding check_headers
    check_headers_sound (some timestamp) (some nonce) (some signature) ht hn hs e =
        let (within, rest) = check_time_sound timestamp nonce signature e in
        let (path, unused, parsed, signed) = check_signature_sound timestamp nonce signature rest in
        record {
          timestamp = timestamp;
          nonce = nonce;
          path = path;
          has_timestamp = ht;
          has_nonce = hn;
          parsed = parsed;
          within = within;
          fresh = (IsFresh-iff now_ms nonce cache).0 unused;
          signed = rw signed hs;
        }
    check_headers_sound _ _ _ ht hn hs e = cc

    check_headers_complete :
        (a : Acceptable checked_ms now_ms req secret skew cache)
        → check_headers js checked_ms now_ms skew req
            (some a.timestamp)
            (some a.nonce)
            (given (first_header (req.headers signature_header)))
            secret
            cache
          ≡ (ok, (a.nonce, now_ms + skew * 1000) ∷ sweep now_ms cache)
    unfolding check_headers check_time check_signature
    check_headers_complete a =
        let (finite, inside) =
          (IsWithin-iff (checked_ms / 1000) (js.to_number a.timestamp) skew).1 a.within in
        rw (
          a.signed,
          finite,
          inside,
          (IsFresh-iff now_ms a.nonce cache).1 a.fresh,
          a.parsed,
          (same_bytes_iff _ _).1 refl,
        )

module _ (js : Js) (checked_ms now_ms : ℕ) (req : Request) (secret : String) (max_skew : ℕ)
    (cache : Cache) where
  abbrev verified : VerifyResult × Cache
  verified = verify_internal_signature js checked_ms now_ms req secret max_skew cache

  -- What an accepted request leaves in the cache of nonces.
  pub verified_of_Acceptable :
      (a : Acceptable js checked_ms now_ms req secret (effective_skew max_skew) cache)
      → verified ≡ (ok, (a.nonce, now_ms + effective_skew max_skew * 1000) ∷ sweep now_ms cache)
  unfolding verify_internal_signature
  verified_of_Acceptable a =
      rw (a.has_timestamp, a.has_nonce)
        (check_headers_complete js checked_ms now_ms req secret (effective_skew max_skew) cache a)

  -- A request is verified exactly if it carries the three headers, its timestamp is a number at most
  -- the skew away from the second of the first clock reading, its nonce is not in the cache
  -- at the second reading, its URL parses and its
  -- signature is the HMAC of the request under the secret.
  pub accepted_iff :
      (verified.0 ≡ ok) ↔ Acceptable js checked_ms now_ms req secret (effective_skew max_skew) cache
  unfolding verify_internal_signature
  accepted_iff = (
    check_headers_sound js checked_ms now_ms req secret (effective_skew max_skew) cache _ _ _ refl
        refl refl,
    λ a. rw (verified_of_Acceptable a),
  )
