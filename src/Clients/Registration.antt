-- ===== src/Clients/Registration.antt =====
-- What register of src/clients/client.service.ts changes, and what a client then may do.
use kisauth.Base.{
  String, Option, none, some, List, [], ◌∷◌, ◌≡◌, str_eq, eq_iff, eq_refl, if◌then◌else◌, arith,
  ◌↔◌, sym, inl, inr, Bool-cases, true, refl,
}
use mathlib.Core.List.{Memᴰ}
use mathlib.Core.List.Memᴰ
use kisauth.Clients.{
  Status, active, RegisteredClient, Entry, find_by_client_id, with_status, register, includes,
  is_active, is_redirect_uri_allowed, is_purpose_allowed, disabled,
}

-- The status that a client keeps when it is registered again.
abbrev pub status_of : Option RegisteredClient → Status
status_of none = active
status_of (some row) = row.status

-- After register, the entry's client is found with the entry's data and the status that it had, or
-- active if it was new, and every other client is found as before.
pub find-register :
    (entry : Entry) (rows : List RegisteredClient) (client_id : String)
    → find_by_client_id client_id (register entry rows) ≡ (
        if str_eq entry.client_id client_id
        then some (with_status (status_of (find_by_client_id entry.client_id rows)) entry)
        else find_by_client_id client_id rows)
unfolding find_by_client_id register
find-register entry [] client_id = ground arith
find-register entry (row ∷ rest) client_id = ground (
  arith,
  find-register entry rest client_id,
  eq_iff entry.client_id client_id,
  eq_iff row.client_id client_id,
  eq_iff row.client_id entry.client_id,
  eq_refl client_id,
)

includes_iff : (l : List String) (s : String) → (includes l s ≡ true) ↔ Memᴰ s l
includes_iff [] s = (λ h. ground arith, λ m. absurd (Memᴰ.not-nil m))
includes_iff (x ∷ rest) s =
    let (to, from) = includes_iff rest s in
    elim (Bool-cases (str_eq x s)) [
      | inl here ↦ rw here (λ _. Memᴰ.head (sym ((eq_iff x s).0 here)), λ _. refl)
      | inr other ↦ rw other (
        λ h. Memᴰ.tail (to h),
        λ m. elim (Memᴰ.cases_cons m) [
          | inl same ↦ ground (arith, (eq_iff x s).1 (sym same))
          | inr later ↦ from later
        ],
      )
    ]

is_active-true : (s : Status) → is_active s ≡ true → s ≡ active
is_active-true active h = refl
is_active-true disabled h = ground arith

-- A redirect URI is allowed exactly if the client is active and the URI is one of the client's,
-- letter for letter.
pub redirect_allowed_iff :
    (client : RegisteredClient) (redirect_uri : String)
    → (is_redirect_uri_allowed client redirect_uri ≡ true)
      ↔ ((client.status ≡ active) × Memᴰ redirect_uri client.allowed_redirect_uris)
unfolding is_redirect_uri_allowed
redirect_allowed_iff client redirect_uri =
    let (to, from) = includes_iff client.allowed_redirect_uris redirect_uri in
    (λ h. (is_active-true client.status (ground arith), to (ground arith)), λ p. rw (p.0, from p.1))

-- A purpose is allowed exactly if the client is active and lists it.
pub purpose_allowed_iff :
    (client : RegisteredClient) (purpose : String)
    → (is_purpose_allowed client purpose ≡ true)
      ↔ ((client.status ≡ active) × Memᴰ purpose client.allowed_purposes)
unfolding is_purpose_allowed
purpose_allowed_iff client purpose =
    let (to, from) = includes_iff client.allowed_purposes purpose in
    (λ h. (is_active-true client.status (ground arith), to (ground arith)), λ p. rw (p.0, from p.1))
