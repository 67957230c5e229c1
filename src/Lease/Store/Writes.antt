-- ===== src/Lease/Store/Writes.antt =====
-- Heartbeat, Finish, SetStatusQueued and AttachManifest by what their statement matched.
use mc_prototype.Base.{ℕ, ◌≡◌, refl, String, some, true, arith}
use mc_prototype.Lease.Types.{bad_token, job_not_found, ok, err}
use mc_prototype.Lease.Table.{
  Row, Table, find_row, update_row, hits, affected-update_row, update_row_unchanged,
}
use mc_prototype.Lease.Update.{
  heartbeat_guard, heartbeat_change, Outcome, finish_guard, finish_change, requeue_guard,
  requeue_change-id, heartbeat_change-id, requeue_change,
}
use mc_prototype.Lease.Store.{at, heartbeat, finish, set_status_queued}
use mc_prototype.Lease.History.{beats, finishes, requeues, exec}

module _ (now : ℕ) (id agent : String) (token ttl : ℕ) (t : Table) where
  beats_affected :
      (update_row id (heartbeat_guard agent token) (heartbeat_change now ttl) t).1
      ≡ hits (heartbeat_guard agent token) (find_row id t)
  beats_affected = affected-update_row id _ _ (heartbeat_change-id now ttl) t

  pub heartbeat_hit :
      {r : Row}
      → find_row id t ≡ some r
      → heartbeat_guard agent token r ≡ true
      → heartbeat (at now) id agent token ttl t ≡ (exec now (beats id agent token ttl) t, ok tt)
  unfolding heartbeat exec
  heartbeat_hit h g = ground (arith, beats_affected)

  pub heartbeat_miss :
      hits (heartbeat_guard agent token) (find_row id t) ≡ 0
      → heartbeat (at now) id agent token ttl t ≡ (t, err bad_token)
  unfolding heartbeat
  heartbeat_miss h = ground (
    arith,
    beats_affected,
    update_row_unchanged id (heartbeat_guard agent token) (heartbeat_change now ttl) t,
  )

module _ (now : ℕ) (id agent : String) (token : ℕ) (o : Outcome) (t : Table) where
  pub finish_runs :
      finish (at now) id agent token o t ≡ (exec now (finishes id agent token o) t, ok tt)
  unfolding finish exec
  finish_runs = refl

  pub finish_miss :
      hits (finish_guard agent token) (find_row id t) ≡ 0
      → finish (at now) id agent token o t ≡ (t, ok tt)
  unfolding finish
  finish_miss h =
      ground (arith, update_row_unchanged id (finish_guard agent token) (finish_change o) t)

module _ (now : ℕ) (id : String) (t : Table) where
  requeues_affected :
      (update_row id (requeue_guard now) requeue_change t).1
      ≡ hits (requeue_guard now) (find_row id t)
  requeues_affected = affected-update_row id _ _ requeue_change-id t

  pub set_status_queued_hit :
      {r : Row}
      → find_row id t ≡ some r
      → requeue_guard now r ≡ true
      → set_status_queued (at now) id t ≡ (exec now (requeues id) t, ok tt)
  unfolding set_status_queued exec
  set_status_queued_hit h g = ground (arith, requeues_affected)

  pub set_status_queued_miss :
      hits (requeue_guard now) (find_row id t) ≡ 0
      → set_status_queued (at now) id t ≡ (t, err job_not_found)
  unfolding set_status_queued
  set_status_queued_miss h =
      ground
        (arith, requeues_affected, update_row_unchanged id (requeue_guard now) requeue_change t)
