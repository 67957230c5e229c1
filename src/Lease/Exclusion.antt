-- ===== src/Lease/Exclusion.antt =====
-- While a lease is held (TryClaim, Heartbeat, Finish and SetStatusQueued of pg_store.go).
use mc_prototype.Base.{ℕ, ◌<◌, ◌≡◌, String, some, List, arith, All, int64_limit}
use mc_prototype.Lease.Types.{Lease, ok}
use mc_prototype.Lease.Table.{Row, Table, find_row}
use mc_prototype.Lease.Update.{after_seconds}
use mc_prototype.Lease.Store.{at, ClaimTurns, try_claim, heartbeat}
use mc_prototype.Lease.Store.Claims.{try_claim-Granted}
use mc_prototype.Lease.Store.Writes.{heartbeat_hit}
use mc_prototype.Lease.History.{find_row-exec, Call, beats, run, exec, effect}
use mc_prototype.Lease.Held.{
  IsHeld, Undisturbed, claim_guard_held, heartbeat_guard_own, renewed-IsHeld, run-IsHeld,
}

-- After a successful claim, and after any further statements in which other agents do what they
-- like, the holder does not finish the job or shorten the lease, and requeues run no later than its
-- expiry, the row is still leased to that agent under that token at least until the expiry, and no
-- claim of the job succeeds.
pub mutual_exclusion :
    (turns later : ClaimTurns) (id agent b : String) (ttl ttl' : ℕ) (t t' v : Table) (l m : Lease)
    (cs : List (ℕ × Call))
    → try_claim turns id agent ttl t ≡ (t', ok l)
    → All (Undisturbed id agent l.expire_at) cs
    → ((r : Row) × (find_row id (run cs t') ≡ some r) × IsHeld agent l.fencing_token l.expire_at r)
      × ¬ (try_claim later id b ttl' (run cs t') ≡ (v, ok m))
mutual_exclusion turns later id agent b ttl ttl' t t' v l m cs h u =
    let (r, found, held) = run-IsHeld turns id agent ttl t t' l cs h u in
    ((r, found, held), λ h'. refused r found held h')
  where
    refused :
        (r : Row)
        → find_row id (run cs t') ≡ some r
        → IsHeld agent l.fencing_token l.expire_at r
        → ¬ (try_claim later id b ttl' (run cs t') ≡ (v, ok m))
    refused r found held h' =
        let (s, _, g) = try_claim-Granted later id b ttl' (run cs t') v m h' in
        ground (
          arith,
          found,
          g.before,
          g.free,
          claim_guard_held s agent l.fencing_token l.expire_at r held,
        )

-- After a successful claim with a token below 2^63, and after any further statements in which other
-- agents do what they like, the holder does not finish the job or shorten the lease, and requeues
-- run no later than its expiry, the holder's heartbeat is accepted and the row is leased to it
-- until the new expiry.
pub holder_heartbeat :
    (turns : ClaimTurns) (id agent : String) (ttl ttl' s : ℕ) (t t' : Table) (l : Lease)
    (cs : List (ℕ × Call))
    → try_claim turns id agent ttl t ≡ (t', ok l)
    → All (Undisturbed id agent l.expire_at) cs
    → l.fencing_token < int64_limit
    → let v = run cs t' in
      (heartbeat (at s) id agent l.fencing_token ttl' v
        ≡ (exec s (beats id agent l.fencing_token ttl') v, ok tt))
      × ((r : Row) × (find_row id (exec s (beats id agent l.fencing_token ttl') v) ≡ some r)
          × IsHeld agent l.fencing_token (after_seconds s ttl') r)
holder_heartbeat turns id agent ttl ttl' s t t' l cs h u small =
    let (r, found, held) = run-IsHeld turns id agent ttl t t' l cs h u in
    let passes = heartbeat_guard_own agent l.fencing_token l.expire_at r held small in
    let c = beats id agent l.fencing_token ttl' in
    (
      heartbeat_hit s id agent l.fencing_token ttl' (run cs t') found passes,
      (
        effect s c id r,
        find_row-exec s c id (run cs t') found,
        renewed-IsHeld s id agent l.fencing_token l.expire_at ttl' r held passes,
      ),
    )
