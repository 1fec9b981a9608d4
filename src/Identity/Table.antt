-- ===== src/Identity/Table.antt =====
-- The table of src/identity/identity.service.ts: searches, updates and the UNIQUE constraints.
use kisauth.Base.{
  Bool, true, false, some, [], ◌∷◌, ◌++◌, ◌≡◌, All, any, find, Bool-cases, inl, inr, arith,
  if◌then◌else◌, eq_refl, refl,
}
use kisauth.Identity.{Row, Rows, AuthIdentity, clashes, update_rows, has_id, has_subject}

-- The columns under a constraint agree.
abbrev pub IsSameKey : AuthIdentity → AuthIdentity → Type 0
IsSameKey i j =
    (i.id ≡ j.id)
    × (i.provider ≡ j.provider)
    × (i.provider_subject ≡ j.provider_subject)
    × (i.kis_user_id ≡ j.kis_user_id)

-- No two rows break a constraint.
abbrev pub IsUnique : Rows → Type 0
IsUnique [] = Unit
IsUnique (row ∷ rest) = All (λ other. clashes other.identity row ≡ false) rest × IsUnique rest

-- A change of a row that no constraint sees.
abbrev pub KeepsKeys : (Row → Row) → Type 0
KeepsKeys change = (row : Row) → IsSameKey (change row).identity row.identity

pub find-snoc :
    (p : Row → Bool) (rows : Rows) (new : Row)
    → any p rows ≡ false
    → p new ≡ true
    → find p (rows ++ (new ∷ [])) ≡ some new
find-snoc p [] new h e = rw e
find-snoc p (row ∷ rest) new h e = ground (arith, find-snoc p rest new (ground arith) e)

pub find_append :
    (p : Row → Bool) (rows more : Rows) (row : Row)
    → find p rows ≡ some row
    → find p (rows ++ more) ≡ some row
find_append p [] more row h = ground arith
find_append p (r ∷ rest) more row h = elim (Bool-cases (p r)) [
  | inl here ↦ ground arith
  | inr other ↦ ground (arith, find_append p rest more row (ground arith))
]

pub find-update_rows :
    (p here : Row → Bool) (change : Row → Row) (rows : Rows) (row : Row)
    → ((r : Row) → p (change r) ≡ p r)
    → find p rows ≡ some row
    → find p (update_rows here change rows) ≡ some (if here row then change row else row)
find-update_rows p here change [] row keeps h = ground arith
find-update_rows p here change (r ∷ rest) row keeps h = elim (Bool-cases (p r)) [
  | inl found ↦ elim (Bool-cases (here r)) [
    | inl yes_here ↦ ground (arith, keeps r)
    | inr no_here ↦ ground arith
  ]
  | inr other ↦
      ground (arith, keeps r, find-update_rows p here change rest row keeps (ground arith))
]

pub find_holds : (p : Row → Bool) (rows : Rows) (row : Row) → find p rows ≡ some row → p row ≡ true
find_holds p [] row h = ground arith
find_holds p (r ∷ rest) row h = elim (Bool-cases (p r)) [
  | inl here ↦ ground arith
  | inr other ↦ find_holds p rest row (ground arith)
]

-- What update_rows puts for a row.
abbrev pub updated : (Row → Bool) → (Row → Row) → Row → Row
updated here change row = if here row then change row else row

pub updated-IsSameKey :
    (here : Row → Bool) (change : Row → Row)
    → KeepsKeys change
    → (row : Row) → IsSameKey (updated here change row).identity row.identity
updated-IsSameKey here change keeps row = elim (Bool-cases (here row)) [
  | inl yes_here ↦ rw yes_here (keeps row)
  | inr no_here ↦ rw no_here (refl, refl, refl, refl)
]

-- Without a clash, no row carries the new row's pair.
pub any-subject :
    (new : AuthIdentity) (rows : Rows)
    → any (λ row. clashes new row) rows ≡ false
    → any (has_subject new.provider new.provider_subject) rows ≡ false
any-subject new [] h = refl
any-subject new (row ∷ rest) h = ground (arith, any-subject new rest)

-- In a table without duplicates, a search by the id of a row finds that row.
pub find-has_id :
    (p : Row → Bool) (rows : Rows) (row : Row)
    → IsUnique rows
    → find p rows ≡ some row
    → find (has_id row.identity.id) rows ≡ some row
find-has_id p [] row u h = ground arith
find-has_id p (r ∷ rest) row (a, u) h = elim (Bool-cases (p r)) [
  | inl here ↦ ground (arith, eq_refl row.identity.id)
  | inr other ↦
      let found : find p rest ≡ some row = ground arith in
      let apart : clashes row.identity r ≡ false = All_at _ p rest row a found in
      ground (arith, find-has_id p rest row u found)
]
  where
    All_at :
        (P : Row → Type 0) (p : Row → Bool) (rows : Rows) (row : Row)
        → All P rows
        → find p rows ≡ some row
        → P row
    All_at P p [] row a h = ground arith
    All_at P p (r ∷ rest) row (first, a) h = elim (Bool-cases (p r)) [
      | inl here ↦ let e : r ≡ row = ground arith in rw e at first
      | inr other ↦ All_at P p rest row a (ground arith)
    ]
