-- ===== src/Lease/Fencing.antt =====
-- Fencing tokens over histories of the job table (TryClaim, Heartbeat and Finish of pg_store.go).
use mc_prototype.Base.{ℕ, ◌≤◌, ◌<◌, ◌≡◌, ap, String, some, List, [], ◌∷◌, false, arith}
use mc_prototype.Lease.Types.{bad_token, err, Lease, ok}
use mc_prototype.Lease.Table.{Row, Table, find_row}
use mc_prototype.Lease.Update.{
  Outcome, attach_change, claim_change, heartbeat_guard, heartbeat_change, finish_guard,
  finish_change, requeue_change,
}
use mc_prototype.Lease.Store.{at, finish, heartbeat, ClaimTurns, try_claim}
use mc_prototype.Lease.Store.Writes.{heartbeat_miss, finish_miss}
use mc_prototype.Lease.Store.Claims.{Granted, try_claim-Granted}
use mc_prototype.Lease.History.{Call, creates, run, effect, evolve, find_row-run}

lease_token-effect-le :
    (now : ℕ) (c : Call) (j : String) (r : Row) → r.lease_token ≤ (effect now c j r).lease_token
unfolding effect attach_change claim_change heartbeat_change finish_change requeue_change
lease_token-effect-le now (creates job) j r = omega arith
lease_token-effect-le now _ j r = ground arith

pub lease_token-evolve-le :
    (cs : List (ℕ × Call)) (j : String) (r : Row) → r.lease_token ≤ (evolve cs j r).lease_token
unfolding evolve
lease_token-evolve-le [] j r = omega arith
lease_token-evolve-le ((now, c) ∷ cs) j r =
    omega (arith, lease_token-effect-le now c j r, lease_token-evolve-le cs j (effect now c j r))

-- Whatever statements run in between, the fencing token of a later successful claim of the same
-- job is greater than that of an earlier one.
pub fencing_token_lt :
    (turns later : ClaimTurns) (id a b : String) (ttl ttl' : ℕ) (t t' u u' : Table) (l l' : Lease)
    (cs : List (ℕ × Call))
    → try_claim turns id a ttl t ≡ (t', ok l)
    → u ≡ run cs t'
    → try_claim later id b ttl' u ≡ (u', ok l')
    → l.fencing_token < l'.fencing_token
unfolding claim_change
fencing_token_lt turns later id a b ttl ttl' t t' u u' l l' cs h e h' =
    let (now, _, g) = try_claim-Granted turns id a ttl t t' l h in
    let (now', _, g') = try_claim-Granted later id b ttl' u u' l' h' in
    let seen = find_row-run cs id t' g.after in
    let kept = lease_token-evolve-le cs id (claim_change now a ttl g.row) in
    ground (arith, g.token, g'.token, g'.before, ap (find_row id) e, seen, kept)

-- A row whose token passed `k` refuses the heartbeats and the finishes that carry `k`.
heartbeat_guard_stale :
    (agent : String) (k : ℕ) (r : Row) → k < r.lease_token → heartbeat_guard agent k r ≡ false
unfolding heartbeat_guard
heartbeat_guard_stale agent k r h = ground arith

finish_guard_stale :
    (agent : String) (k : ℕ) (r : Row) → k < r.lease_token → finish_guard agent k r ≡ false
unfolding finish_guard
finish_guard_stale agent k r h = ground arith

-- The row of a claimed job, after any further history.
Granted-token-lt :
    (now : ℕ) (id a b : String) (ttl : ℕ) (t t' : Table) (l : Lease) (k : ℕ) (cs : List (ℕ × Call))
    → Granted now id b ttl t t' l
    → k < l.fencing_token
    → (r : Row) × (find_row id (run cs t') ≡ some r) × (k < r.lease_token)
unfolding claim_change
Granted-token-lt now id a b ttl t t' l k cs g h =
    (evolve cs id (claim_change now b ttl g.row), find_row-run cs id t' g.after, later)
  where
    later : k < (evolve cs id (claim_change now b ttl g.row)).lease_token
    later = ground (arith, g.token, lease_token-evolve-le cs id (claim_change now b ttl g.row))

-- Once a later claim of a job succeeded, a heartbeat with the token of an earlier successful claim,
-- from whatever agent and after whatever statements, is refused as a bad token and changes nothing.
pub stale_heartbeat :
    (turns later : ClaimTurns) (id a b c : String) (ttl ttl' ttl'' now : ℕ) (t t' u u' v : Table)
    (l l' : Lease) (cs ds : List (ℕ × Call))
    → try_claim turns id a ttl t ≡ (t', ok l)
    → u ≡ run cs t'
    → try_claim later id b ttl' u ≡ (u', ok l')
    → v ≡ run ds u'
    → heartbeat (at now) id c l.fencing_token ttl'' v ≡ (v, err bad_token)
stale_heartbeat turns later id a b c ttl ttl' ttl'' now t t' u u' v l l' cs ds h e h' e' =
    let (then_now, _, g) = try_claim-Granted later id b ttl' u u' l' h' in
    let older = fencing_token_lt turns later id a b ttl ttl' t t' u u' l l' cs h e h' in
    let (r, found, past) =
      Granted-token-lt then_now id a b ttl' u u' l' l.fencing_token ds g older in
    heartbeat_miss now id c l.fencing_token ttl'' v
      (rw (e', found, heartbeat_guard_stale c l.fencing_token r past))

-- Once a later claim of a job succeeded, a finish with the token of an earlier successful claim,
-- from whatever agent and after whatever statements, changes nothing, though it returns no error.
pub stale_finish :
    (turns later : ClaimTurns) (id a b c : String) (ttl ttl' now : ℕ) (o : Outcome)
    (t t' u u' v : Table) (l l' : Lease) (cs ds : List (ℕ × Call))
    → try_claim turns id a ttl t ≡ (t', ok l)
    → u ≡ run cs t'
    → try_claim later id b ttl' u ≡ (u', ok l')
    → v ≡ run ds u'
    → finish (at now) id c l.fencing_token o v ≡ (v, ok tt)
stale_finish turns later id a b c ttl ttl' now o t t' u u' v l l' cs ds h e h' e' =
    let (then_now, _, g) = try_claim-Granted later id b ttl' u u' l' h' in
    let older = fencing_token_lt turns later id a b ttl ttl' t t' u u' l l' cs h e h' in
    let (r, found, past) =
      Granted-token-lt then_now id a b ttl' u u' l' l.fencing_token ds g older in
    finish_miss now id c l.fencing_token o v
      (rw (e', found, finish_guard_stale c l.fencing_token r past))
