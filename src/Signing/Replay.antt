-- ===== src/Signing/Replay.antt =====
-- The nonce cache of src/security/internal-signing.ts against replayed requests.
use kisauth.Base.{
  ℕ, ◌+◌, ◌*◌, ◌/◌, ◌≤◌, ◌<◌, Bool, true, false, String, Option, some, List, [], ◌∷◌, ◌≡◌, ◌≢◌, ◌⊎◌,
  inl, inr, refl, sym, ◌∙◌, arith, Bool-cases, All, leb, Option-cases, if◌then◌else◌, some_inj,
}
use kisauth.Base.Int.{pos}
use kisauth.Base.Number.{whole}
use kisauth.Js.{Js}
use kisauth.Signing.{
  VerifyResult, ok, Request, Cache, first_header, given, sweep, effective_skew, timestamp_header,
  nonce_header, check_signature, check_time, check_headers, verify_internal_signature, has,
  is_finite, outside_window, refused, signature_mismatch,
}
use kisauth.Signing.Acceptance.{IsFresh, Acceptable, accepted_iff, verified_of_Acceptable, IsWithin}
use kisauth.Signing.Payload.{body_hash, path_with_query, signature_payload, sign}
use kisauth.LinkTicket.{same_bytes}
use native.Mathlib.Nat.{le_refl}

-- The cache holds the nonce until `deadline` or longer.
abbrev Remembers : String → ℕ → Cache → Type 0
Remembers nonce deadline [] = ⊥
Remembers nonce deadline (e ∷ rest) =
    ((e.0 ≡ nonce) × (deadline ≤ e.1)) ⊎ Remembers nonce deadline rest

not_IsFresh :
    (now : ℕ) (nonce : String) (d : ℕ) (cache : Cache)
    → now < d
    → Remembers nonce d cache
    → ¬ IsFresh now nonce cache
not_IsFresh now nonce d [] h m fresh = elim m [ ]
not_IsFresh now nonce d (e ∷ rest) h (inl (same, later)) fresh =
    absurd (omega (arith, fresh.0 same))
not_IsFresh now nonce d (e ∷ rest) h (inr m) fresh = not_IsFresh now nonce d rest h m fresh.1

Remembers-sweep :
    (now : ℕ) (nonce : String) (d : ℕ) (cache : Cache)
    → now < d
    → Remembers nonce d cache
    → Remembers nonce d (sweep now cache)
Remembers-sweep now nonce d [] h m = elim m [ ]
Remembers-sweep now nonce d (e ∷ rest) h (inl (same, later)) = ground arith
Remembers-sweep now nonce d (e ∷ rest) h (inr m) =
    let kept = Remembers-sweep now nonce d rest h m in
    elim (Bool-cases (leb e.1 now)) [ inl old ↦ rw old kept | inr live ↦ rw live (inr kept) ]

IsFresh-sweep :
    (now now' : ℕ) (nonce : String) (cache : Cache)
    → now ≤ now'
    → IsFresh now nonce cache
    → IsFresh now' nonce (sweep now cache)
IsFresh-sweep now now' nonce [] h fresh = tt
IsFresh-sweep now now' nonce (e ∷ rest) h (here, fresh) =
    let kept = IsFresh-sweep now now' nonce rest h fresh in
    elim (Bool-cases (leb e.1 now)) [
      | inl old ↦ rw old kept
      | inr live ↦ rw live (λ same. (let first : e.1 ≤ now = here same in omega arith), kept)
    ]

module _ (js : Js) (secret : String) (max_skew : ℕ) where
  abbrev verify : (checked now : ℕ) → Request → Cache → VerifyResult × Cache
  verify checked now_ms req cache =
      verify_internal_signature js checked now_ms req secret max_skew cache

  module _ (P : Cache → Type 0) (checked now skew : ℕ) (req : Request) (cache : Cache)
      (same : P cache) (swept : P (sweep now cache))
      (added : (e : String × ℕ) → P (e ∷ sweep now cache)) where
    check_signature_keeps :
        (timestamp nonce signature : String)
        → P (check_signature js now skew req timestamp nonce signature secret cache).1
    unfolding check_signature
    check_signature_keeps timestamp nonce signature =
        elim (Bool-cases (has nonce (sweep now cache))) [
          | inl seen ↦ rw seen swept
          | inr unseen ↦ elim (Option-cases (path_with_query js req.url)) [
            | inl failed ↦ rw (unseen, failed) swept
            | inr (path, parsed) ↦
                rw (unseen, parsed)
                  (after (
                    same_bytes
                      (sign js secret (
                        signature_payload js req.method path timestamp nonce
                          (body_hash js req.body)))
                      signature))
          ]
        ]
      where
        after :
            (b : Bool)
            → P
                (if◌then◌else◌ {A = VerifyResult × Cache} b
                  (ok, (nonce, now + skew * 1000) ∷ sweep now cache)
                  (refused signature_mismatch, sweep now cache)).1
        after true = added _
        after false = swept

    check_time_keeps :
        (timestamp nonce signature : String)
        → P (check_time js checked now skew req timestamp nonce signature secret cache).1
    unfolding check_time
    check_time_keeps timestamp nonce signature =
        elim (Bool-cases (is_finite (js.to_number timestamp))) [
          | inr no_number ↦ rw no_number same
          | inl finite ↦
              elim (Bool-cases (outside_window (checked / 1000) (js.to_number timestamp) skew)) [
                | inl outside ↦ rw (finite, outside) same
                | inr inside ↦ rw (finite, inside) (check_signature_keeps timestamp nonce signature)
              ]
        ]

    check_headers_keeps :
        (timestamp nonce signature : Option String)
        → P (check_headers js checked now skew req timestamp nonce signature secret cache).1
    unfolding check_headers
    check_headers_keeps (some timestamp) (some nonce) (some signature) =
        check_time_keeps timestamp nonce signature
    check_headers_keeps _ _ _ = same

  -- A verification drops only what has expired.
  Remembers-verify :
      (checked now : ℕ) (req : Request) (nonce : String) (d : ℕ) (cache : Cache)
      → now < d
      → Remembers nonce d cache
      → Remembers nonce d (verify checked now req cache).1
  unfolding verify_internal_signature
  Remembers-verify checked now req nonce d cache h m =
      let kept = Remembers-sweep now nonce d cache h m in
      check_headers_keeps (Remembers nonce d) checked now (effective_skew max_skew) req cache m kept
        (λ e. inr kept) _ _ _

  -- Other requests are verified, each with the two readings of the clock.
  unfoldable pub verify_all : List (ℕ × ℕ × Request) → Cache → Cache
  verify_all [] cache = cache
  verify_all ((checked, now, req) ∷ rest) cache = verify_all rest (verify checked now req cache).1

  abbrev pub Until : ℕ → List (ℕ × ℕ × Request) → Type 0
  Until now = All (λ e. e.1 ≤ now)

  Remembers-verify_all :
      (others : List (ℕ × ℕ × Request)) (now : ℕ) (nonce : String) (d : ℕ) (cache : Cache)
      → Until now others
      → now < d
      → Remembers nonce d cache
      → Remembers nonce d (verify_all others cache)
  unfolding verify_all
  Remembers-verify_all [] now nonce d cache u h m = m
  Remembers-verify_all ((checked, t, req) ∷ rest) now nonce d cache (first, u) h m =
      Remembers-verify_all rest now nonce d (verify checked t req cache).1 u h
        (Remembers-verify checked t req nonce d cache (omega arith) m)

  -- A request that still passes the window is checked before the deadline of its nonce.
  in_window :
      (checked now ts delay skew : ℕ) (timestamp : String)
      → js.to_number timestamp ≡ whole (pos ts)
      → (ts + 1) * 1000 + delay ≤ now
      → IsWithin (checked / 1000) (js.to_number timestamp) skew
      → checked + delay < now + skew * 1000
  in_window checked now ts delay skew timestamp read early within =
      let inside : IsWithin (checked / 1000) (whole (pos ts)) skew = rw read at within in
      omega arith

  -- When a request has been accepted and the second of its timestamp had been over for at least a
  -- delay when the clock was read for its nonce, no later request with its nonce and timestamp is
  -- accepted, whatever requests are verified in between, if at most the delay lies between the two
  -- readings of the clock for the later one.
  pub replay_refused :
      (checked now checked' now' delay : ℕ) (req req' : Request) (cache : Cache)
      (others : List (ℕ × ℕ × Request)) (ts : ℕ)
      (a : Acceptable js checked now req secret (effective_skew max_skew) cache)
      → given (first_header (req'.headers nonce_header)) ≡ some a.nonce
      → given (first_header (req'.headers timestamp_header)) ≡ some a.timestamp
      → js.to_number a.timestamp ≡ whole (pos ts)
      → (ts + 1) * 1000 + delay ≤ now
      → now' ≤ checked' + delay
      → Until now' others
      → (verify checked' now' req' (verify_all others (verify checked now req cache).1)).0 ≢ ok
  replay_refused checked now checked' now' delay req req' cache others ts a same_nonce same_time
        read early quick u e =
      let b = (accepted_iff js checked' now' req' secret max_skew _).0 e in
      let nonces : a.nonce ≡ b.nonce = some_inj (sym same_nonce ∙ b.has_nonce) in
      let times : a.timestamp ≡ b.timestamp = some_inj (sym same_time ∙ b.has_timestamp) in
      let deadline = now + effective_skew max_skew * 1000 in
      let held : Remembers a.nonce deadline (verify checked now req cache).1 =
        rw (verified_of_Acceptable js checked now req secret max_skew cache a)
          (inl (refl, omega arith)) in
      let before =
        in_window checked' now ts delay (effective_skew max_skew) a.timestamp read early
          (rw times b.within) in
      let soon : now' < deadline = omega arith in
      not_IsFresh now' a.nonce deadline _ soon
        (Remembers-verify_all others now' a.nonce deadline _ u soon held) (rw nonces b.fresh)

  -- When a request has been accepted and its timestamp is a whole second that is not before the one
  -- in which the clock was read for its nonce, it is accepted again at the millisecond in which its
  -- nonce expires, if both readings of the clock fall into it.
  pub replay_accepted :
      (checked now ts : ℕ) (req : Request) (cache : Cache)
      (a : Acceptable js checked now req secret (effective_skew max_skew) cache)
      → js.to_number a.timestamp ≡ whole (pos ts)
      → checked ≤ now
      → now / 1000 ≤ ts
      → (let again = now + effective_skew max_skew * 1000 in
          verify again again req (verify checked now req cache).1).0
        ≡ ok
  replay_accepted checked now ts req cache a read ordered fresh_time =
      let inside : IsWithin (checked / 1000) (whole (pos ts)) (effective_skew max_skew) =
        rw read at a.within in
      rw (verified_of_Acceptable js checked now req secret max_skew cache a) (
        (accepted_iff js _ _ req secret max_skew _).1 (record {
          timestamp = a.timestamp;
          nonce = a.nonce;
          path = a.path;
          has_timestamp = a.has_timestamp;
          has_nonce = a.has_nonce;
          parsed = a.parsed;
          within = rw read (omega arith);
          fresh = ((λ _. le_refl _), IsFresh-sweep now _ a.nonce cache (omega arith) a.fresh);
          signed = a.signed;
        }))
