-- ===== src/Memo.antt =====
-- The Map in which src/oauth/oidc-provider-resolver.service.ts and oidc-discovery.service.ts keep
-- what they fetched, with the millisecond up to which it counts. What is set last stands first.
use kisauth.Base.{
  ℕ, ◌+◌, ◌<◌, ◌≤◌, String, Option, none, some, List, [], ◌∷◌, str_eq, ltb, if◌then◌else◌, All, ◌≡◌,
  arith, eq_iff, Bool-cases, inl, inr, refl, ap, sym, ◌∙◌, some_inj, subst,
}

pub record Entry (V : Type 0) : Type 0 where
  pub key : String
  pub value : V
  pub expires_at : ℕ

abbrev pub Memo : Type 0 → Type 0
Memo V = List (Entry V)

module _ {V : Type 0} where
  -- `cache.get(key)`
  abbrev pub entry : String → Memo V → Option (Entry V)
  entry key [] = none
  entry key (e ∷ memo) = if str_eq e.key key then some e else entry key memo

  -- `cached && cached.expiresAt > Date.now()`
  abbrev pub unless_over : ℕ → Option (Entry V) → Option V
  unless_over now none = none
  unless_over now (some e) = if ltb now e.expires_at then some e.value else none

  unfoldable pub fresh : ℕ → String → Memo V → Option V
  fresh now key memo = unless_over now (entry key memo)

  -- `cache.set(key, { …, expiresAt: Date.now() + CACHE_TTL_MS })`
  unfoldable pub keep : (now ttl : ℕ) → String → V → Memo V → Memo V
  keep now ttl key value memo = record { key = key; value = value; expires_at = now + ttl } ∷ memo

  -- Every entry is right for its key as of a moment that has passed, and ends with the lifetime that
  -- begins then, at the latest.
  module _ (Right : String → ℕ → V → Type 0) (life : ℕ) where
    abbrev pub Stands : ℕ → Entry V → Type 0
    Stands t e =
        (since : ℕ) × (since ≤ t) × (e.expires_at ≤ since + life) × Right e.key since e.value

    abbrev pub IsTrue : ℕ → Memo V → Type 0
    IsTrue t memo = All (Stands t) memo

    pub IsTrue-later : (t t' : ℕ) (memo : Memo V) → t ≤ t' → IsTrue t memo → IsTrue t' memo
    IsTrue-later t t' [] h all = tt
    IsTrue-later t t' (e ∷ memo) h ((since, past, ends, right), all) =
        ((since, omega arith, ends, right), IsTrue-later t t' memo h all)

    entry-IsTrue :
        (t : ℕ) (key : String) (memo : Memo V) (e : Entry V)
        → IsTrue t memo
        → entry key memo ≡ some e
        → (e.key ≡ key) × Stands t e
    entry-IsTrue t key [] e all h = ground arith
    entry-IsTrue t key (first ∷ memo) e all h = elim (Bool-cases (str_eq first.key key)) [
      | inr other ↦ entry-IsTrue t key memo e all.1 (rw other at h)
      | inl same ↦
          let found : first ≡ e = some_inj (rw same at h) in
          (ap (λ x. x.key) (sym found) ∙ (eq_iff first.key key).0 same, rw (← found) (all.0))
    ]

    unless_over_inv :
        (now : ℕ) (o : Option (Entry V)) (v : V)
        → unless_over now o ≡ some v
        → (e : Entry V) × (o ≡ some e) × (e.value ≡ v) × (now < e.expires_at)
    unless_over_inv now none v h = ground arith
    unless_over_inv now (some e) v h = (e, refl, ground arith, ground arith)

    -- What counts at some time was right less than the lifetime before.
    pub fresh-IsTrue :
        (t now : ℕ) (key : String) (memo : Memo V) (v : V)
        → IsTrue t memo
        → fresh now key memo ≡ some v
        → (since : ℕ) × (since ≤ t) × (now < since + life) × Right key since v
    unfolding fresh
    fresh-IsTrue t now key memo v all h =
        let (e, found, is_v, in_time) = unless_over_inv now (entry key memo) v h in
        let (same, (since, past, ends, right)) = entry-IsTrue t key memo e all found in
        (
          since,
          past,
          omega arith,
          subst (λ x. Right key since x) is_v (subst (λ x. Right x since e.value) same right),
        )

    pub keep-IsTrue :
        (since now ttl : ℕ) (key : String) (memo : Memo V) (v : V)
        → since ≤ now
        → now + ttl ≤ since + life
        → Right key since v
        → IsTrue now memo
        → IsTrue now (keep now ttl key v memo)
    unfolding keep
    keep-IsTrue since now ttl key memo v past ends right all = ((since, past, ends, right), all)
