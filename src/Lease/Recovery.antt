-- ===== src/Lease/Recovery.antt =====
-- Failure recovery: an expired lease is requeued and claimed anew (SetStatusQueued and TryClaim).
use mc_prototype.Base.{ℕ, ◌+◌, ◌<◌, ◌≡◌, refl, ◌∙◌, ap, String, some, true, false, arith, eq_refl}
use mc_prototype.Base.{none}
use mc_prototype.Lease.Types.{queued}
use mc_prototype.Lease.Types.{is_active, ok, err, bad_token}
use mc_prototype.Lease.Table.{Row, Table, find_row}
use mc_prototype.Lease.Update.{
  after_seconds, claim_guard, heartbeat_guard, requeue_guard, requeue_change,
}
use mc_prototype.Lease.Store.{at, ClaimTurns, try_claim, heartbeat, set_status_queued}
use mc_prototype.Lease.Store.Claims.{try_claim_free}
use mc_prototype.Lease.Store.Writes.{set_status_queued_hit, heartbeat_miss}
use mc_prototype.Lease.History.{claims, requeues, exec, effect, find_row-exec}

requeued :
    (now : ℕ) (id : String) (r : Row)
    → requeue_guard now r ≡ true
    → effect now (requeues id) id r ≡ requeue_change r
unfolding effect
requeued now id r g = rw (eq_refl id, g)

-- When the lease of an assigned or running job is over, the requeue succeeds, where the database
-- answers: the row is queued and without a lease, counts one retry more and is otherwise as it was.
-- After it any agent's claim succeeds, with the next token, while the lost holder's heartbeat fails.
pub requeue_recovers :
    (now s : ℕ) (turns : ClaimTurns) (id old new : String) (ttl : ℕ) (t : Table) (r : Row) (e : ℕ)
    → find_row id t ≡ some r
    → is_active r.status ≡ true
    → r.lease_expires_at ≡ some e
    → e < now
    → turns.update ≡ at s
    → let t' = exec now (requeues id) t in
      (set_status_queued (at now) id t ≡ (t', ok tt))
      × (find_row id t'
          ≡ some (record r {
            status = queued;
            lease_agent = none;
            lease_expires_at = none;
            retry_count = r.retry_count + 1;
          }))
      × (heartbeat (at s) id old r.lease_token ttl t' ≡ (t', err bad_token))
      × (try_claim turns id new ttl t' ≡ (
        exec s (claims id new ttl) t',
        ok (record {
          agent_id = new;
          expire_at = after_seconds s ttl;
          fencing_token = r.lease_token + 1;
        }),
      ))
unfolding requeue_guard requeue_change
requeue_recovers now s turns id old new ttl t r e h a x over u = (
  set_status_queued_hit now id t h expired,
  found,
  heartbeat_miss s id old r.lease_token ttl t' (rw (found, disowned)),
  try_claim_free s turns id new ttl t' u found free,
)
  where
    t' : Table
    t' = exec now (requeues id) t

    expired : requeue_guard now r ≡ true
    expired = ground arith

    found : find_row id t' ≡ some (requeue_change r)
    found = find_row-exec now (requeues id) id t h ∙ ap some (requeued now id r expired)

    disowned : heartbeat_guard old r.lease_token (requeue_change r) ≡ false
    disowned = unfold heartbeat_guard requeue_change in refl

    free : claim_guard s (requeue_change r) ≡ true
    free = unfold claim_guard requeue_change in refl
