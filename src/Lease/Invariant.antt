-- ===== src/Lease/Invariant.antt =====
-- What holds of every row of the job table, over all histories of pg_store.go's statements.
use mc_prototype.Base.{
  ℕ, ◌<◌, ◌≡◌, inl, inr, refl, String, none, some, List, [], ◌∷◌, Bool, true, false, arith, eq_iff,
  All, Option-cases,
}
use mc_prototype.Lease.Types.{queued, is_active, DbJob}
use mc_prototype.Lease.Table.{
  Row, Table, find_row, update_row, find_row-insert_row, find_row-update_row,
}
use mc_prototype.Lease.Update.{
  is_null, new_row, attach_change, claim_guard, claim_change, heartbeat_guard, heartbeat_change,
  finish_guard, finish_change, requeue_guard, requeue_change,
}
use mc_prototype.Lease.History.{
  Call, creates, attaches, claims, beats, finishes, requeues, run, exec, effect, find_row-exec,
}

-- An assigned or running job has an owner, an expiry and a token that some claim gave it; any
-- other job has neither owner nor expiry.
pub record IsConsistent (r : Row) : Type 0 where
  pub owned : is_active r.status ≡ true → is_null r.lease_agent ≡ false
  pub timed : is_active r.status ≡ true → is_null r.lease_expires_at ≡ false
  pub fenced : is_active r.status ≡ true → 0 < r.lease_token
  pub unowned : is_active r.status ≡ false → r.lease_agent ≡ none
  pub untimed : is_active r.status ≡ false → r.lease_expires_at ≡ none

-- Every statement keeps a row consistent.
pub effect-IsConsistent :
    (now : ℕ) (c : Call) (j : String) (r : Row) → IsConsistent r → IsConsistent (effect now c j r)
unfolding effect attach_change claim_guard claim_change heartbeat_guard heartbeat_change
    finish_guard finish_change requeue_guard requeue_change
effect-IsConsistent now (creates job) j r h = h
effect-IsConsistent now _ j r h = ground arith

new_row-IsConsistent : (job : DbJob) → is_active job.status ≡ false → IsConsistent (new_row job)
unfolding new_row
new_row-IsConsistent job h = ground arith

-- The jobs that a history creates are queued: all that the handlers and the command line create.
abbrev pub CreatesQueued : ℕ × Call → Type 0
CreatesQueued (now, creates job) = job.status ≡ queued
CreatesQueued (now, attaches k m) = Unit
CreatesQueued (now, claims k a ttl) = Unit
CreatesQueued (now, beats k a token ttl) = Unit
CreatesQueued (now, finishes k a token o) = Unit
CreatesQueued (now, requeues k) = Unit

abbrev pub Consistent : Table → Type 0
Consistent t = (j : String) (r : Row) → find_row j t ≡ some r → IsConsistent r

-- Only a creation makes a row of a job that had none.
find_row-updated-none :
    (k j : String) (guard : Row → Bool) (change : Row → Row)
    (keeps : (r : Row) → (change r).id ≡ r.id) (t : Table)
    → find_row j t ≡ none
    → find_row j (update_row k guard change t).0 ≡ none
find_row-updated-none k j guard change keeps t h =
    ground (arith, eq_iff k j, find_row-update_row k guard change keeps j t)

find_row-exec-none :
    (now : ℕ) (c : Call) (j : String) (t : Table) (r : Row)
    → CreatesQueued (now, c)
    → find_row j t ≡ none
    → find_row j (exec now c t) ≡ some r
    → IsConsistent r
unfolding exec attach_change claim_change heartbeat_change finish_change requeue_change
find_row-exec-none now (creates job) j t r q h e =
    ground (arith, find_row-insert_row j (new_row job) t, new_row-IsConsistent job (ground arith))
find_row-exec-none now (attaches k m) j t r q h e =
    ground (arith, find_row-updated-none k j (λ _. true) (attach_change m) (λ x. refl) t h)
find_row-exec-none now (claims k a ttl) j t r q h e =
    ground
      (arith, find_row-updated-none k j (claim_guard now) (claim_change now a ttl) (λ x. refl) t h)
find_row-exec-none now (beats k a token ttl) j t r q h e = ground (
  arith,
  find_row-updated-none k j (heartbeat_guard a token) (heartbeat_change now ttl) (λ x. refl) t h,
)
find_row-exec-none now (finishes k a token o) j t r q h e =
    ground
      (arith, find_row-updated-none k j (finish_guard a token) (finish_change o) (λ x. refl) t h)
find_row-exec-none now (requeues k) j t r q h e =
    ground (arith, find_row-updated-none k j (requeue_guard now) requeue_change (λ x. refl) t h)

exec-Consistent :
    (now : ℕ) (c : Call) (t : Table)
    → CreatesQueued (now, c)
    → Consistent t
    → Consistent (exec now c t)
exec-Consistent now c t q h j r e = elim (Option-cases (find_row j t)) [
  | inl absent ↦ find_row-exec-none now c j t r q absent e
  | inr (s, found) ↦
      ground (arith, find_row-exec now c j t found, effect-IsConsistent now c j s (h j s found))
]

-- From a table whose rows are consistent, such as the empty one, and over any statements that
-- create jobs as queued only, every row stays consistent: a job is assigned or running exactly
-- while it has an owner and an expiry.
pub run-Consistent :
    (cs : List (ℕ × Call)) (t : Table) → All CreatesQueued cs → Consistent t → Consistent (run cs t)
unfolding run
run-Consistent [] t q h = h
run-Consistent ((now, c) ∷ cs) t q h =
    run-Consistent cs (exec now c t) q.1 (exec-Consistent now c t q.0 h)
