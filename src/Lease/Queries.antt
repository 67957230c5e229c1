-- ===== src/Lease/Queries.antt =====
-- The reading methods of internal/lease/pg_store.go. Where SQL leaves the order of rows open (equal
-- creation times, or no ORDER BY), a query answers in the order of the list that it is given: that
-- list stands for the table in the order in which this query meets its rows.
pub mod Pages
use mc_prototype.Base.{
  ℕ, ◌+◌, ◌≤◌, ◌≡◌, String, Option, none, some, List, [], ◌∷◌, Bool, true, false, ◌&&◌, map, str_eq,
  leb, ltb, filter, take, drop, ℤ, pos, negsuc, to_ℕ, if◌then◌else◌,
}
use mc_prototype.Lease.Types.{
  JobStatus, queued, assigned, running, succeeded, failed, is_queued, is_failed, DbJob, Metrics,
  Result,
}
use mc_prototype.Lease.Table.{Row, Table}
use mc_prototype.Lease.Update.{requeue_guard, is_text}
use mc_prototype.Lease.Store.{Turn, run_read, job_of}

unfoldable pub insert_by : (Row → Row → Bool) → Row → List Row → List Row
insert_by before r [] = r ∷ []
insert_by before r (x ∷ xs) = if before r x then r ∷ x ∷ xs else x ∷ insert_by before r xs

-- ORDER BY: `before r x` if r may stand before x.
unfoldable pub sort_by : (Row → Row → Bool) → List Row → List Row
unfolding insert_by
sort_by before [] = []
sort_by before (r ∷ rs) = insert_by before r (sort_by before rs)

abbrev pub oldest_first : Row → Row → Bool
oldest_first r x = leb r.created_at x.created_at

abbrev pub newest_first : Row → Row → Bool
newest_first r x = leb x.created_at r.created_at

-- ListExpiredLeases: its argument is not used by the statement.
unfoldable pub list_expired_leases : Turn → ℕ → Table → Result (List String)
list_expired_leases turn cutoff t =
    run_read turn (λ now s. map (λ r. r.id) (filter (requeue_guard now) s)) t

-- ListQueued does not select retry_count, which stays 0.
unfoldable pub list_queued : Turn → Table → Result (List DbJob)
unfolding sort_by job_of
list_queued turn t =
    run_read turn
      (λ now s.
        map (λ r. record (job_of r) { retry_count = 0 })
          (sort_by oldest_first (filter (λ r. is_queued r.status) s)))
      t

abbrev pub reason_of_metrics : Option Metrics → Option String
reason_of_metrics none = none
reason_of_metrics (some m) = m.reason

unfoldable pub list_manifest_missing_since : Turn → ℕ → Table → Result (List String)
list_manifest_missing_since turn cutoff t =
    run_read turn
      (λ now s.
        map (λ r. r.id)
          (filter
            (λ r.
              is_failed r.status
              && (is_text (reason_of_metrics r.metrics) "manifest_not_found"
                  && leb r.created_at cutoff))
            s))
      t

unfoldable pub list_all : Turn → Table → Result (List DbJob)
unfolding sort_by job_of
list_all turn t = run_read turn (λ now s. map job_of (sort_by oldest_first s)) t

-- `if limit <= 0 { limit = 100 }`, `if limit > 1000 { limit = 1000 }`
unfoldable pub page_limit : ℤ → ℕ
page_limit (negsuc n) = 100
page_limit (pos n) = if leb n 0 then 100 else if ltb 1000 n then 1000 else n

-- `if offset < 0 { offset = 0 }`
unfoldable pub page_offset : ℤ → ℕ
page_offset (negsuc n) = 0
page_offset (pos n) = n

unfoldable pub list_paged : Turn → ℤ → ℤ → Table → Result (List DbJob)
unfolding page_limit page_offset sort_by job_of
list_paged turn limit offset t =
    run_read turn
      (λ now s.
        map job_of (take (page_limit limit) (drop (page_offset offset) (sort_by newest_first s))))
      t

abbrev pub same_status : JobStatus → JobStatus → Bool
same_status queued queued = true
same_status assigned assigned = true
same_status running running = true
same_status succeeded succeeded = true
same_status failed failed = true
same_status _ _ = false

unfoldable pub count_status : JobStatus → Table → ℕ
count_status s [] = 0
count_status s (r ∷ rs) = (if same_status s r.status then 1 else 0) + count_status s rs

-- CountByStatus: a Go map, 0 at a status that no row has.
unfoldable pub count_by_status : Turn → Table → Result (JobStatus → ℕ)
unfolding count_status
count_by_status turn t = run_read turn (λ now s status. count_status status s) t
