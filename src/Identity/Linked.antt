-- ===== src/Identity/Linked.antt =====
-- What link of src/identity/identity.service.ts reports is what the table then holds.
use kisauth.Base.{
  ℕ, true, String, Option, some, ◌≡◌, refl, any, find, Bool-cases, Option-cases, inl, inr, arith,
  str_eq, eq_iff, eq_refl, ◌∙◌, ap, some_inj, ◌⊎◌, sym,
}
use kisauth.Identity.{
  Rows, AuthIdentity, LinkArgs, linked, clashes, has_subject, has_id, set_email, new_row,
  find_by_provider_subject, relink, insert_link, link,
}
use kisauth.Identity.Table.{
  IsUnique, updated, updated-IsSameKey, find-snoc, find-update_rows, find-has_id, any-subject,
}
use kisauth.Identity.Bindings.{Extends, find_by-row, set_email-KeepsKeys, subject_kept}

-- Postgres took the text of the account for the account of the row.
abbrev pub IsFor : (String → Option String) → LinkArgs → AuthIdentity → Type 0
IsFor uuid args i =
    (i.kis_user_id ≡ args.kis_user_id) ⊎ (uuid args.kis_user_id ≡ some i.kis_user_id)

module _ (uuid : String → Option String) (now : ℕ) where
  relink_of_found :
      (existing j : AuthIdentity) (args : LinkArgs) (rows : Rows)
      → IsUnique rows
      → find_by_provider_subject args.provider args.provider_subject rows ≡ some j
      → j.id ≡ existing.id
      → (k : AuthIdentity) × ((relink uuid now existing args rows).0 ≡ linked k)
        × (find_by_provider_subject args.provider args.provider_subject
              (relink uuid now existing args rows).1
            ≡ some k)
        × (k.id ≡ existing.id)
        × (k.kis_user_id ≡ j.kis_user_id)
  unfolding relink find_by_provider_subject
  relink_of_found existing j args rows unique bound same_id =
      let (row, found, same) = find_by-row args.provider args.provider_subject rows j bound in
      let subject = has_subject args.provider args.provider_subject in
      let here = has_id existing.id in
      let change = set_email now args in
      let row_id : row.identity.id ≡ existing.id = ap (λ x. x.id) same ∙ same_id in
      let by_id : find here rows ≡ some row =
        rw row_id at (find-has_id subject rows row unique found) in
      let changed =
        find-update_rows subject here change rows row
          (subject_kept change args.provider args.provider_subject (set_email-KeepsKeys now args))
          found in
      let changed_id = find-update_rows here here change rows row (λ r. refl) by_id in
      let (a, b, c, d) = updated-IsSameKey here change (set_email-KeepsKeys now args) row in
      (
        (updated here change row).identity,
        rw (changed_id, relink),
        rw (changed_id, changed, relink, find_by_provider_subject),
        a ∙ row_id,
        d ∙ ap (λ x. x.kis_user_id) same,
      )

  insert_link_linked :
      (id : String) (args : LinkArgs) (rows : Rows) (i : AuthIdentity)
      → (insert_link uuid now id args rows).0 ≡ linked i
      → (find_by_provider_subject args.provider args.provider_subject
            (insert_link uuid now id args rows).1
          ≡ some i)
        × (uuid args.kis_user_id ≡ some i.kis_user_id)
  unfolding insert_link find_by_provider_subject
  insert_link_linked id args rows i h = elim (Option-cases (uuid args.kis_user_id)) [
    | inl refused ↦ ground arith
    | inr (user, read) ↦
        let new = new_row now id user args in
        elim (Bool-cases (any (λ row. clashes new.identity row) rows)) [
          | inl clash ↦ ground arith
          | inr free ↦
              let same : linked new.identity ≡ linked i = rw (read, free, insert_link) at h in
              let found =
                find-snoc (has_subject args.provider args.provider_subject) rows new
                  (any-subject new.identity rows free)
                  (ground (arith, eq_refl args.provider, eq_refl args.provider_subject)) in
              let e : new.identity ≡ i = cc in
              (
                rw (read, free, found, insert_link, find_by_provider_subject) (ap some e),
                rw read (ap (λ x. some x.kis_user_id) e),
              )
        ]
  ]

  -- What link reports as linked is, right afterwards, what the provider account is bound to, and it
  -- is the account that was asked for, if what other connections do meanwhile breaks no constraint
  -- and no binding.
  pub link_finds :
      (id : String) (gap : Rows → Rows) (args : LinkArgs) (rows : Rows) (i : AuthIdentity)
      → IsUnique (gap rows)
      → Extends rows (gap rows)
      → (link uuid now id gap args rows).0 ≡ linked i
      → (find_by_provider_subject args.provider args.provider_subject
            (link uuid now id gap args rows).1
          ≡ some i)
        × IsFor uuid args i
  unfolding link
  link_finds id gap args rows i unique meanwhile h =
      elim (Option-cases (find_by_provider_subject args.provider args.provider_subject rows)) [
        | inl missing ↦
            let (found, read) = insert_link_linked id args (gap rows) i (rw (missing, link) at h) in
            (rw (missing, link) found, inr read)
        | inr (existing, bound) ↦ elim (Bool-cases (str_eq existing.kis_user_id args.kis_user_id)) [
          | inr other ↦ ground arith
          | inl same ↦
              let (j, bound', same_id, same_user) =
                meanwhile args.provider args.provider_subject existing bound in
              let (k, result, found, _, user) =
                relink_of_found existing j args (gap rows) unique bound' same_id in
              let h' : (relink uuid now existing args (gap rows)).0 ≡ linked i =
                rw (bound, same, link) at h in
              let e : k ≡ i = cc (result, h') in
              let asked = (eq_iff existing.kis_user_id args.kis_user_id).0 same in
              (
                rw (bound, same, found, link) (ap some e),
                inl (ap (λ x. x.kis_user_id) (sym e) ∙ user ∙ same_user ∙ asked),
              )
        ]
      ]

-- A link that was reported, asked for again when the table has lost no binding, is reported again,
-- with the same row and the same account, if the account is written the way Postgres prints it.
pub link_again :
    (uuid : String → Option String) (now now' : ℕ) (id id' : String) (gap : Rows → Rows)
    (args : LinkArgs) (rows later : Rows) (i : AuthIdentity)
    → IsUnique (gap rows)
    → Extends rows (gap rows)
    → uuid args.kis_user_id ≡ some args.kis_user_id
    → (link uuid now id gap args rows).0 ≡ linked i
    → IsUnique later
    → Extends (link uuid now id gap args rows).1 later
    → (k : AuthIdentity) × ((link uuid now' id' (λ r. r) args later).0 ≡ linked k)
      × (k.id ≡ i.id)
      × (k.kis_user_id ≡ args.kis_user_id)
unfolding link
link_again uuid now now' id id' gap args rows later i unique meanwhile canonical h unique' kept =
    let (found, for_user) = link_finds uuid now id gap args rows i unique meanwhile h in
    let user : i.kis_user_id ≡ args.kis_user_id = elim for_user [
      | inl same ↦ same
      | inr read ↦ some_inj (sym read ∙ canonical)
    ] in
    let (j, bound, same_id, same_user) = kept args.provider args.provider_subject i found in
    let asked : str_eq j.kis_user_id args.kis_user_id ≡ true =
      (eq_iff j.kis_user_id args.kis_user_id).1 (same_user ∙ user) in
    let (k, result, _, id_k, user_k) =
      relink_of_found uuid now' j j args later unique' bound refl in
    (k, rw (bound, asked, link) result, id_k ∙ same_id, user_k ∙ same_user ∙ user)
