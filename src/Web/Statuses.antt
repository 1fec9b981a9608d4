-- ===== src/Web/Statuses.antt =====
-- When GET /status of src/web/web.controller.ts answers, and with which page.
use kisauth.Base.{
  true, String, none, some, List, [], ◌∷◌, str_eq, any, All, ◌≡◌, refl, arith, eq_iff, Bool-cases,
  inl, inr, sym, subst, Option, Option-cases, ◌↔◌,
}
use kisauth.Web.Status.{states, inherited, find_copy, choose_copy, status}
use kisauth.Js.{Js}
use kisauth.Signing.{given}

any_All :
    (P : String → Type 0) (name : String) (names : List String)
    → All P names
    → any (str_eq name) names ≡ true
    → P name
any_All P name [] all h = ground arith
any_All P name (n ∷ names) all h = elim (Bool-cases (str_eq name n)) [
  | inl same ↦ subst P (sym ((eq_iff name n).0 same)) (all.0)
  | inr other ↦ any_All P name names all.1 (rw other at h)
]

-- No state has an inherited name.
find_copy-inherited : All (λ n. find_copy n states ≡ none) inherited
find_copy-inherited = (
  refl,
  (refl, (refl, (refl, (refl, (refl, (refl, (refl, (refl, (refl, (refl, (refl, tt))))))))))),
)

choose_copy-inherited :
    (name : String) → any (str_eq name) inherited ≡ true → choose_copy (some name) ≡ none
unfolding choose_copy
choose_copy-inherited name h =
    let unknown : find_copy name states ≡ none =
      any_All (λ n. find_copy n states ≡ none) name inherited find_copy-inherited h in
    rw (unknown, h, choose_copy)

choose_copy-none :
    (state : Option String)
    → choose_copy state ≡ none
    → (name : String) × (state ≡ some name) × (any (str_eq name) inherited ≡ true)
unfolding choose_copy
choose_copy-none none h = ground arith
choose_copy-none (some name) h = elim (Option-cases (find_copy name states)) [
  | inr (found, e) ↦ let bad : some found ≡ none = rw (e, choose_copy) at h in cc
  | inl e ↦ elim (Bool-cases (any (str_eq name) inherited)) [
    | inl is ↦ (name, refl, is)
    | inr other ↦ let bad : _ = rw (e, other, choose_copy) at h in cc
  ]
]

-- GET /status answers with a page, whatever its parameters, unless `state` is the name of a property
-- that every object inherits, such as `constructor`; then it fails.
pub status_fails_iff :
    (js : Js) (base_url : String) (state client_redirect : Option String)
    → (status js base_url state client_redirect ≡ none)
      ↔ ((name : String) × (given state ≡ some name) × (any (str_eq name) inherited ≡ true))
unfolding status
status_fails_iff js base_url state client_redirect = (
  λ h. elim (Option-cases (choose_copy (given state))) [
    | inl e ↦ choose_copy-none (given state) e
    | inr (found, e) ↦ let bad : _ = rw (e, status) at h in cc
  ],
  λ p. let (name, is, inherits) = p in rw (is, choose_copy-inherited name inherits, status),
)
