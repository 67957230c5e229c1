-- ===== src/Lease/Tests.antt =====
-- Runs of the job store, and its theorems at concrete inputs.
use mathlib.Core.HLevel.{¬_prop}
use mathlib.Core.List.{Perm, Permᴰ, Mem, Pairwise, forall_mem-cons, not-mem-nil}
use mathlib.Core.List.Permᴰ
use mc_prototype.Base.{
  zero, suc, ℕ, ◌<◌, ◌≡◌, ◌≢◌, ◌*◌, refl, inr, String, none, some, List, [], ◌∷◌, true, arith,
  eq_iff, map,
}
use mc_prototype.Lease.Types.{queued, DbJob, Lease, ok, err, bad_token, second}
use mc_prototype.Lease.Table.{Row, Table, find_row, update_row, insert_row}
use mc_prototype.Lease.Update.{
  new_row, Outcome, claim_guard, claim_change, requeue_guard, requeue_change, heartbeat_guard,
  heartbeat_change,
}
use mc_prototype.Lease.Store.{
  at, ClaimTurns, try_claim, claim_update, heartbeat, finish, set_status_queued, job_of,
}
use mc_prototype.Lease.History.{Call, claims, beats, finishes, requeues, attaches, exec, run}
use mc_prototype.Lease.Fencing.{fencing_token_lt, stale_heartbeat, stale_finish}
use mc_prototype.Lease.Held.{IsHeld}
use mc_prototype.Lease.Exclusion.{mutual_exclusion}
use mc_prototype.Lease.Recovery.{requeue_recovers}
use mc_prototype.Lease.Queries.{list_paged, page_limit, page_offset, sort_by}
use mc_prototype.Lease.Queries.Pages.{Descending, DistinctTimes, pages, pages_cover}

abbrev job : DbJob
job = record {
  id = "j1";
  image = "alpine";
  command = "echo" ∷ [];
  status = queued;
  created_at = 7;
  retry_count = 0;
}

abbrev fresh : Table
fresh = new_row job ∷ []

-- An update at the instant `n`, with no other session in between.
abbrev alone : ℕ → ClaimTurns
alone n = record { update = at n; others = λ t. t; get = at n; more_others = λ t. t; reason = at n }

abbrev ttl : ℕ
ttl = 15 * second

-- A test that names this unfolds the store.
store_open : Unit {0}
unfolding try_claim claim_update claim_guard claim_change update_row insert_row find_row new_row run
    exec requeue_guard requeue_change heartbeat heartbeat_guard heartbeat_change list_paged sort_by
    page_limit page_offset job_of
store_open = tt

abbrev taken : Table
taken = (try_claim (alone 100) "j1" "a" ttl fresh).0

abbrev lease : Lease
lease = record { agent_id = "a"; expire_at = 15000000100; fencing_token = 1 }

claim_runs : try_claim (alone 100) "j1" "a" ttl fresh ≡ (taken, ok lease)
unfolding store_open
claim_runs = refl

-- The lease runs out, the job is requeued, and another agent claims it.
abbrev lapse : List (ℕ × Call)
lapse = (16000000000, requeues "j1") ∷ []

abbrev requeued : Table
requeued = run lapse taken

abbrev retaken : Table
retaken = (try_claim (alone 17000000000) "j1" "b" ttl requeued).0

abbrev second_lease : Lease
second_lease = record { agent_id = "b"; expire_at = 32000000000; fencing_token = 2 }

claim_again : try_claim (alone 17000000000) "j1" "b" ttl requeued ≡ (retaken, ok second_lease)
unfolding store_open
claim_again = refl

fencing_token_lt_example : lease.fencing_token < second_lease.fencing_token
fencing_token_lt_example =
    fencing_token_lt (alone 100) (alone 17000000000) "j1" "a" "b" ttl ttl fresh taken requeued
      retaken lease second_lease lapse claim_runs refl claim_again

abbrev attached : List (ℕ × Call)
attached =
    (18000000000, attaches "j1" (record { root_cid = "cid"; providers = []; enc_meta = "" })) ∷ []

stale_heartbeat_example :
    heartbeat (at 19000000000) "j1" "a" 1 ttl (run attached retaken)
    ≡ (run attached retaken, err bad_token)
stale_heartbeat_example =
    stale_heartbeat (alone 100) (alone 17000000000) "j1" "a" "b" "a" ttl ttl ttl 19000000000 fresh
      taken requeued retaken (run attached retaken) lease second_lease lapse attached claim_runs
      refl claim_again refl

abbrev outcome : Outcome
outcome = record { succeeded = true; result_cid = "r"; artifacts = none; metrics = none }

stale_finish_example :
    finish (at 19000000000) "j1" "a" 1 outcome (run attached retaken)
    ≡ (run attached retaken, ok tt)
stale_finish_example =
    stale_finish (alone 100) (alone 17000000000) "j1" "a" "b" "a" ttl ttl 19000000000 outcome fresh
      taken requeued retaken (run attached retaken) lease second_lease lapse attached claim_runs
      refl claim_again refl

-- While the lease lasts: the holder's heartbeat, another agent's claim, finish and heartbeat, and a requeue.
abbrev busy : List (ℕ × Call)
busy =
    (5000000000, beats "j1" "a" 1 ttl)
    ∷ (6000000000, claims "j1" "b" ttl)
    ∷ (7000000000, finishes "j1" "b" 9 outcome)
    ∷ (8000000000, requeues "j1")
    ∷ []

a_not_b : ◌≢◌ {A = String} "b" "a"
a_not_b = ground (arith, eq_iff "b" "a")

mutual_exclusion_example :
    ((r : Row) × (find_row "j1" (run busy taken) ≡ some r) × IsHeld "a" 1 15000000100 r)
    × ¬ (try_claim (alone 9000000000) "j1" "b" ttl (run busy taken) ≡ (taken, ok lease))
mutual_exclusion_example =
    mutual_exclusion (alone 100) (alone 9000000000) "j1" "a" "b" ttl ttl fresh taken taken lease
      lease busy claim_runs (inr (inr (omega arith)), (tt, (inr a_not_b, (inr (omega arith), tt))))

abbrev held_row : Row
held_row = claim_change 100 "a" ttl (new_row job)

held_found : find_row "j1" taken ≡ some held_row
unfolding store_open
held_found = refl

requeue_recovers_example :
    let t' = exec 16000000000 (requeues "j1") taken in
    (set_status_queued (at 16000000000) "j1" taken ≡ (t', ok tt))
    × (find_row "j1" t'
        ≡ some (record held_row {
          status = queued;
          lease_agent = none;
          lease_expires_at = none;
          retry_count = 1;
        }))
    × (heartbeat (at 17000000000) "j1" "a" 1 ttl t' ≡ (t', err bad_token))
    × (try_claim (alone 17000000000) "j1" "b" ttl t'
        ≡ (exec 17000000000 (claims "j1" "b" ttl) t', ok second_lease))
unfolding new_row claim_change
requeue_recovers_example =
    requeue_recovers 16000000000 17000000000 (alone 17000000000) "j1" "a" "b" ttl taken held_row
      15000000100 held_found refl refl (omega arith) refl

abbrev second_job : DbJob
second_job = record job { id = "j2"; created_at = 9 }

abbrev third_job : DbJob
third_job = record job { id = "j3"; created_at = 8 }

abbrev three : Table
three = new_row job ∷ new_row second_job ∷ new_row third_job ∷ []

-- Each query meets the rows in another order than the one before.
abbrev turned : ℕ → Table
turned zero = three
turned (suc i) = new_row second_job ∷ new_row job ∷ new_row third_job ∷ []

turned-Permᴰ : (i : ℕ) → Permᴰ three (turned i)
turned-Permᴰ zero = Permᴰ.refl three
turned-Permᴰ (suc i) = Permᴰ.swap refl refl

-- No row of a longer list has the time of `r`, if neither its first row has nor the others have.
apart :
    (r : Row) {x : Row} {xs : List Row}
    → r.created_at ≢ x.created_at
    → ((y : Row) → Mem y xs → r.created_at ≢ y.created_at)
    → (y : Row) → Mem y (x ∷ xs)
    → r.created_at ≢ y.created_at
apart r ne h =
    (forall_mem-cons {p = λ (y : Row). r.created_at ≢ y.created_at} (λ y. ¬_prop)).1 (ne, h)

apart_from_none : (r : Row) (y : Row) → Mem y [] → r.created_at ≢ y.created_at
apart_from_none r y m = absurd (not-mem-nil m)

apart_rows :
    (x y : DbJob) → x.created_at ≢ y.created_at → (new_row x).created_at ≢ (new_row y).created_at
unfolding new_row
apart_rows x y ne = ne

three-DistinctTimes : DistinctTimes three
three-DistinctTimes =
    Pairwise.cons
      (apart (new_row job) (apart_rows job second_job (omega arith)) (
        apart (new_row job) (apart_rows job third_job (omega arith))
          (apart_from_none (new_row job))))
      (Pairwise.cons
        (apart (new_row second_job) (apart_rows second_job third_job (omega arith))
          (apart_from_none (new_row second_job)))
        (Pairwise.cons (apart_from_none (new_row third_job)) Pairwise.nil))

pages_cover_example :
    (rows : List Row) × Perm rows three × Descending rows × (pages 1 2 2 turned ≡ map job_of rows)
pages_cover_example =
    pages_cover 1 2 2 turned three (omega arith) (omega arith) (omega arith) three-DistinctTimes
      turned-Permᴰ
