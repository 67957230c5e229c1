-- ===== src/Lease/History.antt =====
-- Histories of the job table. PostgreSQL runs each writing statement atomically, so whatever the
-- handlers, the loops and other servers do to the table is a sequence of the statements below.
use mc_prototype.Base.{
  ℕ, ◌≡◌, refl, String, some, List, [], ◌∷◌, Bool, true, arith, str_eq, eq_iff, if◌then◌else◌,
}
use mc_prototype.Lease.Types.{DbJob, Manifest}
use mc_prototype.Lease.Table.{
  Row, Table, find_row, update_row, insert_row, guarded, find_row-update_row, find_row-insert_row,
}
use mc_prototype.Lease.Update.{
  new_row, attach_change, claim_guard, claim_change, heartbeat_guard, heartbeat_change, Outcome,
  finish_guard, finish_change, requeue_guard, requeue_change,
}

pub data Call : Type 0 where
  creates : DbJob → Call
  attaches : String → Manifest → Call
  claims : String → String → ℕ → Call
  beats : String → String → ℕ → ℕ → Call
  finishes : String → String → ℕ → Outcome → Call
  requeues : String → Call

-- One statement, at the instant that now() gives.
unfoldable pub exec : ℕ → Call → Table → Table
exec now (creates job) t = insert_row (new_row job) t
exec now (attaches id m) t = (update_row id (λ _. true) (attach_change m) t).0
exec now (claims id agent ttl) t =
    (update_row id (claim_guard now) (claim_change now agent ttl) t).0
exec now (beats id agent token ttl) t =
    (update_row id (heartbeat_guard agent token) (heartbeat_change now ttl) t).0
exec now (finishes id agent token o) t =
    (update_row id (finish_guard agent token) (finish_change o) t).0
exec now (requeues id) t = (update_row id (requeue_guard now) requeue_change t).0

unfoldable pub run : List (ℕ × Call) → Table → Table
run [] t = t
run ((now, c) ∷ cs) t = run cs (exec now c t)

-- What a statement does to the row of the job `j`, once there is one.
unfoldable pub effect : ℕ → Call → String → Row → Row
effect now (creates job) j r = r
effect now (attaches id m) j r = if str_eq id j then guarded (λ _. true) (attach_change m) r else r
effect now (claims id agent ttl) j r =
    if str_eq id j then guarded (claim_guard now) (claim_change now agent ttl) r else r
effect now (beats id agent token ttl) j r =
    if str_eq id j then guarded (heartbeat_guard agent token) (heartbeat_change now ttl) r else r
effect now (finishes id agent token o) j r =
    if str_eq id j then guarded (finish_guard agent token) (finish_change o) r else r
effect now (requeues id) j r =
    if str_eq id j then guarded (requeue_guard now) requeue_change r else r

unfoldable pub evolve : List (ℕ × Call) → String → Row → Row
evolve [] j r = r
evolve ((now, c) ∷ cs) j r = evolve cs j (effect now c j r)

pub find_row-updated :
    (k j : String) (guard : Row → Bool) (change : Row → Row)
    (keeps : (r : Row) → (change r).id ≡ r.id) (t : Table) {r : Row}
    → find_row j t ≡ some r
    → find_row j (update_row k guard change t).0
      ≡ some (if str_eq k j then guarded guard change r else r)
find_row-updated k j guard change keeps t {r} h =
    ground (arith, eq_iff k j, find_row-update_row k guard change keeps j t)

pub find_row-exec :
    (now : ℕ) (c : Call) (j : String) (t : Table) {r : Row}
    → find_row j t ≡ some r
    → find_row j (exec now c t) ≡ some (effect now c j r)
unfolding exec effect attach_change claim_change heartbeat_change finish_change requeue_change
find_row-exec now (creates job) j t h = rw (find_row-insert_row j (new_row job) t, h)
find_row-exec now (attaches id m) j t h = find_row-updated id j _ _ (λ r. refl) t h
find_row-exec now (claims id agent ttl) j t h = find_row-updated id j _ _ (λ r. refl) t h
find_row-exec now (beats id agent token ttl) j t h = find_row-updated id j _ _ (λ r. refl) t h
find_row-exec now (finishes id agent token o) j t h = find_row-updated id j _ _ (λ r. refl) t h
find_row-exec now (requeues id) j t h = find_row-updated id j _ _ (λ r. refl) t h

pub find_row-run :
    (cs : List (ℕ × Call)) (j : String) (t : Table) {r : Row}
    → find_row j t ≡ some r
    → find_row j (run cs t) ≡ some (evolve cs j r)
unfolding run evolve
find_row-run [] j t h = h
find_row-run ((now, c) ∷ cs) j t h = find_row-run cs j (exec now c t) (find_row-exec now c j t h)
