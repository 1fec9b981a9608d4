-- ===== src/Signing/RoundTrip.antt =====
-- What signedInternalHeaders of src/security/internal-signing.ts signs, verifyInternalSignature
-- accepts.
use kisauth.Base.{
  ℕ, ◌+◌, ◌/◌, ◌≤◌, String, Option, none, some, ◌≡◌, ◌≢◌, arith, str_eq, str_eq_of_ne,
  if◌then◌else◌,
}
use kisauth.Base.Int.{pos}
use kisauth.Base.Number.{whole}
use kisauth.Js.{Js}
use kisauth.Json.{Json}
use kisauth.Signing.{
  VerifyResult, ok, one, Request, Cache, given, effective_skew, timestamp_header, nonce_header,
  signature_header, signed_internal_headers, verify_internal_signature,
}
use kisauth.Signing.Payload.{path_with_query, signature_payload, body_hash, sign}
use kisauth.Signing.Acceptance.{IsFresh, accepted_iff}

-- A request that carries the three headers.
abbrev pub carrying : (method url : String) → Option Json → String × String × String → Request
carrying method url body signed = record {
  method = method;
  url = url;
  body = body;
  headers = λ name.
      if str_eq name timestamp_header
      then some (one signed.0)
      else if str_eq name nonce_header
      then some (one signed.1)
      else if str_eq name signature_header
      then some (one signed.2)
      else none;
}

-- What is relied on of Number(String(n)) and of HMAC: whole numbers are read back, and neither
-- text is empty.
pub record Prints (js : Js) : Type 0 where
  pub read_back : (n : ℕ) → js.to_number (js.print_nat n) ≡ whole (pos n)
  pub print-ne : (n : ℕ) → js.print_nat n ≢ ""
  pub hmac-ne : (secret payload : String) → js.hmac secret payload ≢ ""

given_of_ne : (s : String) → s ≢ "" → given (some s) ≡ some s
given_of_ne s h = rw (str_eq_of_ne s "" h)

module _ (js : Js) (laws : Prints js) where
  abbrev pub verdict : (checked now : ℕ) → Request → (secret : String) → ℕ → Cache → VerifyResult
  verdict checked now req secret max_skew cache =
      (verify_internal_signature js checked now req secret max_skew cache).0

  sign-ne : (secret payload : String) → sign js secret payload ≢ ""
  unfolding sign
  sign-ne secret payload = laws.hmac-ne secret payload

  -- For a URL that parses, the headers made at one time are accepted when the verifier first reads a
  -- clock within the skew, for the same method, URL, body and secret, if the nonce is not empty and not
  -- in the cache at its second reading,
  -- given that Number reads back what String prints of whole numbers and no HMAC is empty.
  pub signed_accepted :
      (now checked now' : ℕ) (random method url path : String) (body : Option Json)
      (secret : String) (max_skew : ℕ) (cache : Cache)
      → path_with_query js url ≡ some path
      → random ≢ ""
      → now / 1000 ≤ checked / 1000 + effective_skew max_skew
      → checked / 1000 ≤ now / 1000 + effective_skew max_skew
      → IsFresh now' random cache
      → (signed : String × String × String) × (signed_internal_headers js now random method url body
            secret
          ≡ some signed)
        × (verdict checked now' (carrying method url body signed) secret max_skew cache ≡ ok)
  unfolding signed_internal_headers
  signed_accepted now checked now' random method url path body secret max_skew cache parsed named lo
        hi fresh =
      let timestamp = js.print_nat (now / 1000) in
      let signature =
        sign js secret (signature_payload js method path timestamp random (body_hash js body)) in
      (
        (timestamp, random, signature),
        rw (parsed, signed_internal_headers),
        (accepted_iff js checked now' (carrying method url body (timestamp, random, signature))
              secret max_skew cache).1
            (record {
              timestamp = timestamp;
              nonce = random;
              path = path;
              has_timestamp = given_of_ne _ (laws.print-ne _);
              has_nonce = given_of_ne _ named;
              parsed = parsed;
              within = rw (laws.read_back (now / 1000)) (omega arith);
              fresh = fresh;
              signed = given_of_ne _ (sign-ne secret _);
            }),
      )
