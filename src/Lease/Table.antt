-- ===== src/Lease/Table.antt =====
-- The table demand_jobs and the SQL statements over it. `id` is the primary key, so that a
-- statement with `WHERE id = $1` reads or writes one row at most: the first with that id.
use mc_prototype.Base.{
  ℕ, String, ◌≡◌, refl, List, [], ◌∷◌, ◌++◌, Option, none, some, Bool, arith, str_eq, eq_iff,
  if◌then◌else◌,
}
use mathlib.Core.Option
use mc_prototype.Lease.Types.{JobStatus, Metrics}

pub record Row : Type 0 where
  pub id : String
  pub image : String
  pub command : List String
  pub status : JobStatus
  pub created_at : ℕ
  pub retry_count : ℕ
  pub manifest_root_cid : Option String
  pub manifest_providers : Option (List String)
  pub manifest_enc_meta : Option String
  pub lease_agent : Option String
  pub lease_expires_at : Option ℕ
  pub lease_token : ℕ
  pub result_root_cid : Option String
  pub artifacts : Option (List String)
  pub metrics : Option Metrics

abbrev pub Table : Type 0
Table = List Row

-- SELECT ... WHERE id = $1
unfoldable pub find_row : String → Table → Option Row
find_row k [] = none
find_row k (r ∷ rs) = if str_eq r.id k then some r else find_row k rs

-- UPDATE ... SET change WHERE id = $1 AND guard, with the number of rows affected.
unfoldable pub update_row : String → (Row → Bool) → (Row → Row) → Table → Table × ℕ
update_row k guard change [] = ([], 0)
update_row k guard change (r ∷ rs) =
    let (rest, n) = update_row k guard change rs in
    if str_eq r.id k then (if guard r then (change r ∷ rs, 1) else (r ∷ rs, 0)) else (r ∷ rest, n)

-- INSERT ... ON CONFLICT (id) DO NOTHING; a new row goes to the end of the table.
unfoldable pub insert_row : Row → Table → Table
unfolding find_row
insert_row r t = elim (find_row r.id t) [ none ↦ t ++ r ∷ [] | some _ ↦ t ]

-- What a guarded change does to one row.
abbrev pub guarded : (Row → Bool) → (Row → Row) → Row → Row
guarded guard change r = if guard r then change r else r

abbrev pub hits : (Row → Bool) → Option Row → ℕ
hits guard none = 0
hits guard (some r) = if guard r then 1 else 0

pub find_row-id : (k : String) (t : Table) {r : Row} → find_row k t ≡ some r → r.id ≡ k
unfolding find_row
find_row-id k [] h = ground arith
find_row-id k (x ∷ t) {r} h = ground (arith, eq_iff x.id k, find_row-id k t {r = r})

module _ (k : String) (guard : Row → Bool) (change : Row → Row)
    (keeps : (r : Row) → (change r).id ≡ r.id) where
  -- An update is seen by a later select on the same id only.
  pub find_row-update_row :
      (j : String) (t : Table)
      → find_row j (update_row k guard change t).0
        ≡ (if str_eq k j then Option.map (guarded guard change) (find_row k t) else find_row j t)
  unfolding find_row update_row
  find_row-update_row j [] = ground arith
  find_row-update_row j (r ∷ t) = ground (
    arith,
    keeps r,
    eq_iff r.id k,
    eq_iff r.id j,
    eq_iff (change r).id j,
    eq_iff k j,
    find_row-update_row j t,
  )

  pub affected-update_row :
      (t : Table) → (update_row k guard change t).1 ≡ hits guard (find_row k t)
  unfolding find_row update_row
  affected-update_row [] = refl
  affected-update_row (r ∷ t) = ground (arith, affected-update_row t)

pub update_row_unchanged :
    (k : String) (guard : Row → Bool) (change : Row → Row) (t : Table)
    → hits guard (find_row k t) ≡ 0
    → (update_row k guard change t).0 ≡ t
unfolding find_row update_row
update_row_unchanged k guard change [] h = refl
update_row_unchanged k guard change (r ∷ t) h =
    ground (arith, update_row_unchanged k guard change t)

find_row-append :
    (j : String) (t : Table) (r : Row)
    → find_row j (t ++ r ∷ [])
      ≡ elim (find_row j t) [ none ↦ (if str_eq r.id j then some r else none) | some x ↦ some x ]
unfolding find_row
find_row-append j [] r = refl
find_row-append j (x ∷ t) r = ground (arith, find_row-append j t r)

pub find_row-insert_row :
    (j : String) (r : Row) (t : Table)
    → find_row j (insert_row r t)
      ≡ elim (find_row j t) [ none ↦ (if str_eq r.id j then some r else none) | some x ↦ some x ]
unfolding insert_row
find_row-insert_row j r t = ground (arith, find_row-append j t r, eq_iff r.id j)
