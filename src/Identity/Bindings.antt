-- ===== src/Identity/Bindings.antt =====
-- What src/identity/identity.service.ts does to the bindings of provider accounts to KIS accounts.
use kisauth.Base.{
  ℕ, Bool, String, Option, some, [], ◌∷◌, ◌++◌, ◌≡◌, refl, any, find, Bool-cases, Option-cases, inl,
  inr, arith, str_eq, ◌∙◌, ap,
}
use kisauth.Identity.{
  Row, Rows, AuthIdentity, LinkArgs, clashes, update_rows, has_subject, has_id, set_email, new_row,
  find_by_provider_subject, relink, insert_link, link,
}
use kisauth.Identity.Table.{KeepsKeys, updated, updated-IsSameKey, find_append, find-update_rows}

-- A provider account that the first table binds to a KIS account is bound to it by the second, in
-- the row with the same id.
abbrev pub Extends : Rows → Rows → Type 0
Extends rows rows' =
    (provider subject : String) (i : AuthIdentity)
    → find_by_provider_subject provider subject rows ≡ some i
    → (j : AuthIdentity) × (find_by_provider_subject provider subject rows' ≡ some j)
      × (j.id ≡ i.id)
      × (j.kis_user_id ≡ i.kis_user_id)

pub find_by-row :
    (provider subject : String) (rows : Rows) (i : AuthIdentity)
    → find_by_provider_subject provider subject rows ≡ some i
    → (row : Row) × (find (has_subject provider subject) rows ≡ some row) × (row.identity ≡ i)
unfolding find_by_provider_subject
find_by-row provider subject rows i h =
    elim (Option-cases (find (has_subject provider subject) rows)) [
      | inl missing ↦ ground arith
      | inr (row, found) ↦ (row, found, ground arith)
    ]

Extends-refl : (rows : Rows) → Extends rows rows
Extends-refl rows provider subject i h = (i, h, refl, refl)

Extends-trans : (a b c : Rows) → Extends a b → Extends b c → Extends a c
Extends-trans a b c p q provider subject i h =
    let (j, h', same_id, same_user) = p provider subject i h in
    let (k, h'', id', user') = q provider subject j h' in (k, h'', id' ∙ same_id, user' ∙ same_user)

pub subject_kept :
    (change : Row → Row) (provider subject : String)
    → KeepsKeys change
    → (r : Row) → has_subject provider subject (change r) ≡ has_subject provider subject r
subject_kept change provider subject keeps r = let (a, b, c, d) = keeps r in rw (b, c)

Extends-update_rows :
    (here : Row → Bool) (change : Row → Row) (rows : Rows)
    → KeepsKeys change
    → Extends rows (update_rows here change rows)
unfolding find_by_provider_subject
Extends-update_rows here change rows keeps provider subject i h =
    let (row, found, same) = find_by-row provider subject rows i h in
    let found' =
      find-update_rows (has_subject provider subject) here change rows row
        (subject_kept change provider subject keeps) found in
    let (id', p, s, user') = updated-IsSameKey here change keeps row in
    (
      (updated here change row).identity,
      rw found',
      id' ∙ ap (λ x. x.id) same,
      user' ∙ ap (λ x. x.kis_user_id) same,
    )

Extends-append : (rows more : Rows) → Extends rows (rows ++ more)
unfolding find_by_provider_subject
Extends-append rows more provider subject i h =
    let (row, found, same) = find_by-row provider subject rows i h in
    (i, rw (find_append (has_subject provider subject) rows more row found, same), refl, refl)

pub set_email-KeepsKeys : (now : ℕ) (args : LinkArgs) → KeepsKeys (set_email now args)
set_email-KeepsKeys now args row = (refl, refl, refl, refl)

module _ (uuid : String → Option String) (now : ℕ) where
  Extends-relink :
      (existing : AuthIdentity) (args : LinkArgs) (rows : Rows)
      → Extends rows (relink uuid now existing args rows).1
  unfolding relink
  Extends-relink existing args rows =
      let extended =
        Extends-update_rows (has_id existing.id) (set_email now args) rows
          (set_email-KeepsKeys now args) in
      elim (Option-cases
        (find (has_id existing.id) (update_rows (has_id existing.id) (set_email now args) rows))) [
          | inl gone ↦ rw (gone, relink) extended
          | inr (row, found) ↦ rw (found, relink) extended
        ]

  Extends-insert_link :
      (id : String) (args : LinkArgs) (rows : Rows)
      → Extends rows (insert_link uuid now id args rows).1
  unfolding insert_link
  Extends-insert_link id args rows = elim (Option-cases (uuid args.kis_user_id)) [
    | inl refused ↦ rw (refused, insert_link) (Extends-refl rows)
    | inr (user, read) ↦
        elim (Bool-cases (any (λ row. clashes (new_row now id user args).identity row) rows)) [
          | inl clash ↦ rw (read, clash, insert_link) (Extends-refl rows)
          | inr free ↦
              rw (read, free, insert_link) (Extends-append rows (new_row now id user args ∷ []))
        ]
  ]

  -- Whatever it is asked to link, and whatever its result, link leaves every provider account bound
  -- to the KIS account that it was bound to, if what other connections do meanwhile leaves it so.
  pub link_keeps_bindings :
      (id : String) (gap : Rows → Rows) (args : LinkArgs) (rows : Rows)
      → Extends rows (gap rows)
      → Extends rows (link uuid now id gap args rows).1
  unfolding link
  link_keeps_bindings id gap args rows meanwhile =
      elim (Option-cases (find_by_provider_subject args.provider args.provider_subject rows)) [
        | inl missing ↦
            rw (missing, link)
              (Extends-trans rows (gap rows) _ meanwhile (Extends-insert_link id args (gap rows)))
        | inr (existing, found) ↦ elim (Bool-cases (str_eq existing.kis_user_id args.kis_user_id)) [
          | inl same ↦
              rw (found, same, link)
                (Extends-trans rows (gap rows) _ meanwhile
                  (Extends-relink existing args (gap rows)))
          | inr other ↦ rw (found, other, link) meanwhile
        ]
      ]
