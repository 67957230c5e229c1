-- ===== src/Lease/Queries/Pages.antt =====
-- ListPaged: the pages, one after another, are the whole table, newest first.
use Prim.Native.Nat.add
use Prim.Native.Nat.mul
use native.Mathlib.Nat.{suc-add}
use mathlib.Core.HLevel.{¬_prop}
use mathlib.Core.Path.{ap₂}
use mathlib.Core.List.{Perm, Permᴰ, Pairwise, map-append, mem-cons_self}
use mathlib.Core.List.Perm
use mathlib.Core.List.Permᴰ
use mc_prototype.Base.{
  ℕ, zero, suc, ◌+◌, ◌*◌, ◌≤◌, ◌<◌, ◌≡◌, ◌≢◌, refl, sym, ap, ◌∙◌, List, [], ◌∷◌, ◌++◌, Bool, map,
  arith, take, drop, length, ℤ, pos, negsuc, Bool-cases, inl, inr,
}
use mc_prototype.Lease.Types.{DbJob, Result, ok, err}
use mc_prototype.Lease.Table.{Row, Table}
use mc_prototype.Lease.Store.{down, lost, Turn, at, job_of}
use mc_prototype.Lease.Queries.{
  insert_by, sort_by, newest_first, page_limit, page_offset, list_paged,
}

-- Each element is at least as new as the next.
abbrev pub Descending : List Row → Type 0
Descending [] = Unit
Descending (r ∷ []) = Unit
Descending (r ∷ x ∷ xs) = (x.created_at ≤ r.created_at) × Descending (x ∷ xs)

insert_by-perm :
    (before : Row → Row → Bool) (r : Row) (xs : List Row) → Perm (insert_by before r xs) (r ∷ xs)
unfolding insert_by
insert_by-perm before r [] = Perm.refl _
insert_by-perm before r (x ∷ xs) = elim (Bool-cases (before r x)) [
  | inl e ↦ rw e (Perm.refl _)
  | inr e ↦ rw e (Perm.trans (Perm.cons x (insert_by-perm before r xs)) (Perm.swap r x xs))
]

pub sort_by-perm : (before : Row → Row → Bool) (xs : List Row) → Perm (sort_by before xs) xs
unfolding sort_by
sort_by-perm before [] = Perm.refl _
sort_by-perm before (r ∷ xs) =
    Perm.trans (insert_by-perm before r (sort_by before xs)) (Perm.cons r (sort_by-perm before xs))

insert_by-Descending :
    (r : Row) (xs : List Row) → Descending xs → Descending (insert_by newest_first r xs)
unfolding insert_by
insert_by-Descending r [] h = tt
insert_by-Descending r (x ∷ []) h = ground arith
insert_by-Descending r (x ∷ y ∷ xs) h = ground (arith, insert_by-Descending r (y ∷ xs) h.1)

sort_by-Descending : (xs : List Row) → Descending (sort_by newest_first xs)
unfolding sort_by
sort_by-Descending [] = tt
sort_by-Descending (r ∷ xs) =
    insert_by-Descending r (sort_by newest_first xs) (sort_by-Descending xs)

take-nil {ℓ} : {A : Type ℓ} (n : ℕ) → take {A = A} n [] ≡ []
take-nil zero = refl
take-nil (suc n) = refl

take-append-drop {ℓ} :
    {A : Type ℓ} (n m : ℕ) (xs : List A) → take n xs ++ take m (drop n xs) ≡ take (n + m) xs
take-append-drop zero m xs = rw add.zero refl
take-append-drop {A} (suc n) m [] = take-nil {A = A} m ∙ sym (take-nil {A = A} (suc n + m))
take-append-drop {A} (suc n) m (x ∷ xs) =
    rw (suc-add n m) (ap (λ (l : List A). x ∷ l) (take-append-drop n m xs))

length-take-le {ℓ} : {A : Type ℓ} (n : ℕ) (xs : List A) → length (take n xs) ≤ n
length-take-le zero xs = omega arith
length-take-le (suc n) [] = omega arith
length-take-le (suc n) (x ∷ xs) = omega (arith, length-take-le n xs)

take_all {ℓ} : {A : Type ℓ} (n : ℕ) (xs : List A) → length xs ≤ n → take n xs ≡ xs
take_all zero [] h = refl
take_all zero (x ∷ xs) h = absurd (omega arith)
take_all (suc n) [] h = refl
take_all {A} (suc n) (x ∷ xs) h = ap (λ (l : List A). x ∷ l) (take_all n xs (omega arith))

length-map {ℓ κ} :
    {A : Type ℓ} {B : Type κ} (f : A → B) (xs : List A) → length (map f xs) ≡ length xs
length-map f [] = refl
length-map f (x ∷ xs) = ap suc (length-map f xs)

length-insert_by :
    (before : Row → Row → Bool) (r : Row) (xs : List Row)
    → length (insert_by before r xs) ≡ suc (length xs)
unfolding insert_by
length-insert_by before r [] = refl
length-insert_by before r (x ∷ xs) = ground (arith, length-insert_by before r xs)

length-sort_by :
    (before : Row → Row → Bool) (xs : List Row) → length (sort_by before xs) ≡ length xs
unfolding sort_by
length-sort_by before [] = refl
length-sort_by before (r ∷ xs) =
    omega (arith, length-insert_by before r (sort_by before xs), length-sort_by before xs)

-- The first `k` pages of `n` jobs each, asked for one after another.
abbrev pub jobs_in : Result (List DbJob) → List DbJob
jobs_in (ok js) = js
jobs_in (err e) = []

-- `views i` is the table in the order in which the i-th query meets its rows.
pub pages : ℕ → ℕ → ℕ → (ℕ → Table) → List DbJob
pages now n zero views = []
pages now n (suc k) views =
    pages now n k views ++ jobs_in (list_paged (at now) (pos n) (pos (k * n)) (views k))

-- No two rows have the same creation time.
abbrev pub DistinctTimes : Table → Type 0
DistinctTimes = Pairwise (λ (a b : Row). a.created_at ≢ b.created_at)

insert_by-apart :
    (r x : Row) (xs : List Row)
    → r.created_at ≢ x.created_at
    → insert_by newest_first r (insert_by newest_first x xs)
      ≡ insert_by newest_first x (insert_by newest_first r xs)
unfolding insert_by
insert_by-apart r x [] ne = ground (arith, ne)
insert_by-apart r x (y ∷ ys) ne = ground (arith, ne, insert_by-apart r x ys ne)

DistinctTimes-perm : {t t' : Table} → Permᴰ t t' → DistinctTimes t → DistinctTimes t'
DistinctTimes-perm =
    Permᴰ.pairwise {R = λ (a b : Row). a.created_at ≢ b.created_at} (λ a b. ¬_prop)
      (λ x y ne e. ne (sym e))

-- Rows in another order are sorted alike.
sort_by-Perm :
    {t t' : Table} → Permᴰ t t' → DistinctTimes t → sort_by newest_first t ≡ sort_by newest_first t'
unfolding sort_by
sort_by-Perm Permᴰ.nil d = refl
sort_by-Perm (Permᴰ.cons e p) (Pairwise.cons h d) =
    ap₂ (insert_by newest_first) e (sort_by-Perm p d)
sort_by-Perm (Permᴰ.swap {a} {b} {a'} {b'} {l} e e') (Pairwise.cons h d) =
    insert_by-apart a b (sort_by newest_first l) (h b mem-cons_self)
    ∙ ap₂
        (λ (x y : Row).
          insert_by newest_first x (insert_by newest_first y (sort_by newest_first l)))
        e' e
sort_by-Perm (Permᴰ.trans p q) d = sort_by-Perm p d ∙ sort_by-Perm q (DistinctTimes-perm p d)

page_rows :
    (now n i : ℕ) (t : Table)
    → 0 < n
    → n ≤ 1000
    → jobs_in (list_paged (at now) (pos n) (pos i) t)
      ≡ map job_of (take n (drop i (sort_by newest_first t)))
unfolding list_paged page_limit page_offset
page_rows now n i t h k = ground arith

pages-take :
    (now n k : ℕ) (views : ℕ → Table) (t : Table)
    → 0 < n
    → n ≤ 1000
    → ((i : ℕ) → sort_by newest_first (views i) ≡ sort_by newest_first t)
    → pages now n k views ≡ map job_of (take (k * n) (sort_by newest_first t))
unfolding pages
pages-take now n zero views t h h' same = rw mul.zero refl
pages-take now n (suc k) views t h h' same =
    ap₂ (λ (x y : List DbJob). x ++ y) (pages-take now n k views t h h' same)
      (page_rows now n (k * n) (views k) h h'
        ∙ ap (λ (l : List Row). map job_of (take n (drop (k * n) l))) (same k))
    ∙ joined
  where
    rows : List Row
    rows = sort_by newest_first t

    joined :
        map job_of (take (k * n) rows) ++ map job_of (take n (drop (k * n) rows))
        ≡ map job_of (take (suc k * n) rows)
    joined =
        rw (← map-append, take-append-drop (k * n) n rows)
          (ap (λ (m : ℕ). map job_of (take m rows)) (omega arith))

-- With a limit n from 1 to 1000, and k pages that have room for all jobs, of which no two have the
-- same creation time, the pages, one after another, are all the jobs of the table: each once, the
-- newest first; in whatever order each query meets the rows.
pub pages_cover :
    (now n k : ℕ) (views : ℕ → Table) (t : Table)
    → 0 < n
    → n ≤ 1000
    → length t ≤ k * n
    → DistinctTimes t
    → ((i : ℕ) → Permᴰ t (views i))
    → (rows : List Row) × Perm rows t × Descending rows × (pages now n k views ≡ map job_of rows)
pages_cover now n k views t h h' l d p = (
  sort_by newest_first t,
  sort_by-perm newest_first t,
  sort_by-Descending t,
  pages-take now n k views t h h' (λ i. sym (sort_by-Perm (p i) d))
      ∙ ap (map job_of) (take_all (k * n) _ (omega (arith, length-sort_by newest_first t))),
)

page_limit-le : (limit : ℤ) → page_limit limit ≤ 1000
unfolding page_limit
page_limit-le (pos n) = ground arith
page_limit-le (negsuc n) = omega arith

-- Whatever limit and offset are asked for, a page has at most 1000 jobs.
pub page-le :
    (turn : Turn) (limit offset : ℤ) (t : Table) {js : List DbJob}
    → list_paged turn limit offset t ≡ ok js
    → length js ≤ 1000
unfolding list_paged
page-le down limit offset t h = cc
page-le (lost now) limit offset t h = cc
page-le (at now) limit offset t {js} h = rw (← rows) bounded
  where
    picked : List Row
    picked = take (page_limit limit) (drop (page_offset offset) (sort_by newest_first t))

    rows : map job_of picked ≡ js
    rows = ap jobs_in h

    bounded : length (map job_of picked) ≤ 1000
    bounded = omega (
      arith,
      length-map job_of picked,
      length-take-le (page_limit limit) (drop (page_offset offset) (sort_by newest_first t)),
      page_limit-le limit,
    )
