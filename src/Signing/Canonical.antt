-- ===== src/Signing/Canonical.antt =====
-- The signed text of src/security/internal-signing.ts does not depend on the order of keys.
use kisauth.Base.{
  Bool, true, false, String, List, [], ◌∷◌, ◌≡◌, ◌≢◌, refl, ◌∙◌, ap, arith, ℕ, Option, some,
  Bool-cases, Option-cases, inl, inr,
}
use kisauth.Base.Texts.{◌++◌}
use kisauth.Js.{Js}
use kisauth.Json.{Json, arr, obj, Items, nil, cons, Fields, end, field}
use kisauth.Signing.Payload.{
  join, insert, texts, stable_stringify, stringify_items, sorted_entries, body_text, body_hash,
  path_with_query,
}
use kisauth.Signing.{
  Request, Cache, has, sweep, check_signature, check_time, check_headers, effective_skew,
  verify_internal_signature,
}

-- The same value up to the order of the fields of its objects. Fields that change places have
-- different names.
mutual
  pub data Reordered : Json → Json → Type 0 where
    same : (v : Json) → Reordered v v
    in_arr : {xs ys : Items} → ReorderedItems xs ys → Reordered (arr xs) (arr ys)
    in_obj : {fs gs : Fields} → ReorderedFields fs gs → Reordered (obj fs) (obj gs)

  pub data ReorderedItems : Items → Items → Type 0 where
    no_items : ReorderedItems nil nil
    item :
        {v w : Json} {xs ys : Items}
        → Reordered v w
        → ReorderedItems xs ys
        → ReorderedItems (cons v xs) (cons w ys)

  pub data ReorderedFields : Fields → Fields → Type 0 where
    no_fields : ReorderedFields end end
    keep :
        {k : String} {v w : Json} {fs gs : Fields}
        → Reordered v w
        → ReorderedFields fs gs
        → ReorderedFields (field k v fs) (field k w gs)
    swap :
        {j k : String} {v w : Json} {fs : Fields}
        → j ≢ k
        → ReorderedFields (field j v (field k w fs)) (field k w (field j v fs))
    trans :
        {fs gs hs : Fields} → ReorderedFields fs gs → ReorderedFields gs hs → ReorderedFields fs hs

-- What is relied on of sort(): it goes by a total order of texts.
pub record IsOrder (before : String → String → Bool) : Type 0 where
  pub total : (a b : String) → before a b ≡ false → before b a ≡ true
  pub antisym : (a b : String) → before a b ≡ true → before b a ≡ true → a ≡ b
  pub trans : (a b c : String) → before a b ≡ true → before b c ≡ true → before a c ≡ true

module _ (js : Js) (order : IsOrder js.may_precede) where
  insert-insert :
      (e f : String × String) (l : List (String × String))
      → e.0 ≢ f.0
      → insert js e (insert js f l) ≡ insert js f (insert js e l)
  unfolding insert
  insert-insert e f [] differ = ground (arith, order.total e.0 f.0, order.antisym e.0 f.0)
  insert-insert e f (g ∷ l) differ = ground (
    arith,
    insert-insert e f l differ,
    order.total e.0 f.0,
    order.antisym e.0 f.0,
    order.total e.0 g.0,
    order.total f.0 g.0,
    order.trans e.0 f.0 g.0,
    order.trans f.0 e.0 g.0,
  )

  -- Reordered values have the same canonical text.
  mutual
    unfolding stable_stringify

    stable_stringify-same :
        {v w : Json} → Reordered v w → stable_stringify js v ≡ stable_stringify js w
    stable_stringify-same (same v) = refl
    stable_stringify-same (in_arr xs) =
        ap (λ l. "[" ++ (join "," l ++ "]")) (stringify_items-same xs)
    stable_stringify-same (in_obj fs) =
        ap (λ l. "{" ++ (join "," (texts js l) ++ "}")) (sorted_entries-same fs)

    stringify_items-same :
        {xs ys : Items} → ReorderedItems xs ys → stringify_items js xs ≡ stringify_items js ys
    stringify_items-same no_items = refl
    stringify_items-same (item v xs) = rw (stable_stringify-same v, stringify_items-same xs)

    sorted_entries-same :
        {fs gs : Fields} → ReorderedFields fs gs → sorted_entries js fs ≡ sorted_entries js gs
    sorted_entries-same no_fields = refl
    sorted_entries-same (keep v fs) = rw (stable_stringify-same v, sorted_entries-same fs)
    sorted_entries-same (swap {j} {k} {v} {w} {fs} differ) =
        insert-insert (j, stable_stringify js v) (k, stable_stringify js w) (sorted_entries js fs)
          differ
    sorted_entries-same (trans p q) = sorted_entries-same p ∙ sorted_entries-same q

  body_hash-same : {v w : Json} → Reordered v w → body_hash js (some v) ≡ body_hash js (some w)
  unfolding body_hash body_text
  body_hash-same (same v) = refl
  body_hash-same (in_arr xs) = ap js.sha256 (stable_stringify-same (in_arr xs))
  body_hash-same (in_obj fs) = ap js.sha256 (stable_stringify-same (in_obj fs))

module _ (js : Js) (checked now skew : ℕ) (req : Request) (secret : String) (cache : Cache)
    (b c : Option Json) (hashes : body_hash js b ≡ body_hash js c) where
  abbrev with_body : Option Json → Request
  with_body body = record req { body = body }

  check_signature-body :
      (timestamp nonce signature : String)
      → check_signature js now skew (with_body b) timestamp nonce signature secret cache
        ≡ check_signature js now skew (with_body c) timestamp nonce signature secret cache
  unfolding check_signature
  check_signature-body timestamp nonce signature = elim (Bool-cases (has nonce (sweep now cache))) [
    | inl seen ↦ rw seen
    | inr unseen ↦ elim (Option-cases (path_with_query js req.url)) [
      | inl failed ↦ rw (unseen, failed)
      | inr (path, parsed) ↦ rw (unseen, parsed, hashes)
    ]
  ]

  check_headers-body :
      (timestamp nonce signature : Option String)
      → check_headers js checked now skew (with_body b) timestamp nonce signature secret cache
        ≡ check_headers js checked now skew (with_body c) timestamp nonce signature secret cache
  unfolding check_headers check_time
  check_headers-body (some timestamp) (some nonce) (some signature) =
      rw (check_signature-body timestamp nonce signature)
  check_headers-body _ _ _ = refl

-- Two requests whose bodies differ only in the order of keys, at any depth, have the same verdict
-- and leave the same cache, given that sort() goes by a total order of texts.
pub verify-reordered :
    (js : Js) (order : IsOrder js.may_precede) (checked now : ℕ) (req : Request) (secret : String)
    (max_skew : ℕ) (cache : Cache) (v w : Json)
    → Reordered v w
    → verify_internal_signature js checked now (record req { body = some v }) secret max_skew cache
      ≡ verify_internal_signature js checked now
          (record req { body = some w })
          secret
          max_skew
          cache
unfolding verify_internal_signature
verify-reordered js order checked now req secret max_skew cache v w p =
    check_headers-body js checked now (effective_skew max_skew) req secret cache (some v) (some w)
      (body_hash-same js order p) _ _ _
