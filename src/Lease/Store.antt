-- ===== src/Lease/Store.antt =====
-- internal/lease/pg_store.go: the methods of PGStore over the table demand_jobs.
pub mod Claims
pub mod Writes
pub mod Refusals
use mc_prototype.Base.{
  ℕ, String, Option, none, some, Bool, true, false, str_eq, leb, ◌==◌, if◌then◌else◌,
}
use mc_prototype.Lease.Types.{
  DbJob, Manifest, Lease, StoreError, job_not_found, no_manifest, lease_conflict, bad_token,
  database, Result, ok, err,
}
use mc_prototype.Lease.Table.{Row, Table, find_row, update_row, insert_row}
use mc_prototype.Lease.Update.{
  new_row, attach_change, claim_guard, claim_change, heartbeat_guard, heartbeat_change, Outcome,
  finish_guard, finish_change, requeue_guard, requeue_change,
}

-- How the database answers one statement: at the instant now(), not at all, or by running it at
-- that instant and losing the reply.
pub data Turn : Type 0 where
  at : ℕ → Turn
  down : Turn
  lost : ℕ → Turn

-- A statement that writes, and what the method gets of it.
abbrev pub run_write {ℓ} : {A : Type ℓ} → Turn → (ℕ → Table → Table × A) → Table → Table × Result A
run_write (at now) f t = let (t', a) = f now t in (t', ok a)
run_write down f t = (t, err database)
run_write (lost now) f t = ((f now t).0, err database)

-- A statement that reads.
abbrev pub run_read {ℓ} : {A : Type ℓ} → Turn → (ℕ → Table → A) → Table → Result A
run_read (at now) f t = ok (f now t)
run_read down f t = err database
run_read (lost now) f t = err database

-- The columns that GetJob and the lists select.
unfoldable pub job_of : Row → DbJob
job_of r = record {
  id = r.id;
  image = r.image;
  command = r.command;
  status = r.status;
  created_at = r.created_at;
  retry_count = r.retry_count;
}

-- `if n, _ := res.RowsAffected(); n == 0 { return e }`
abbrev pub require_row : StoreError → Result ℕ → Result (Unit {0})
require_row e (ok n) = if n == 0 then err e else ok tt
require_row e (err x) = err x

abbrev pub ignore_rows : Result ℕ → Result (Unit {0})
ignore_rows (ok n) = ok tt
ignore_rows (err x) = err x

unfoldable pub create_job : Turn → DbJob → Table → Table × Result (Unit {0})
create_job turn job = run_write turn λ now t. (insert_row (new_row job) t, tt)

or_not_found : Option Row → Result DbJob
unfolding job_of
or_not_found none = err job_not_found
or_not_found (some r) = ok (job_of r)

unfoldable pub get_job : Turn → String → Table → Result DbJob
unfolding or_not_found
get_job turn id t = elim (run_read turn (λ now s. find_row id s) t) [
  | ok found ↦ or_not_found found
  | err e ↦ err e
]

unfoldable pub attach_manifest : Turn → String → Manifest → Table → Table × Result (Unit {0})
attach_manifest turn id m t =
    let (t', n) = run_write turn (λ now. update_row id (λ _. true) (attach_change m)) t in
    (t', require_row job_not_found n)

-- The three statements of TryClaim, and what other sessions commit between them.
pub record ClaimTurns : Type 0 where
  pub update : Turn
  pub others : Table → Table
  pub get : Turn
  pub more_others : Table → Table
  pub reason : Turn

-- The second select: the manifest's root and whether the lease is valid.
is_missing : Option String → Bool
is_missing none = true
is_missing (some s) = str_eq s ""

lease_valid : ℕ → Option ℕ → Bool
lease_valid now none = false
lease_valid now (some e) = leb now e

refusal_of : ℕ → Option Row → StoreError
unfolding is_missing lease_valid
refusal_of now none = lease_conflict
refusal_of now (some r) =
    if is_missing r.manifest_root_cid
    then no_manifest
    else if lease_valid now r.lease_expires_at
    then lease_conflict
    else lease_conflict

reason_of : Result StoreError → StoreError
reason_of (ok e) = e
reason_of (err _) = lease_conflict

-- Why a claim failed: the reads after an update that matched no row.
unfoldable pub diagnose : ClaimTurns → String → Table → StoreError
unfolding refusal_of reason_of get_job
diagnose turns id t = elim (get_job turns.get id t) [
  | ok _ ↦
      reason_of
        (run_read turns.reason (λ now s. refusal_of now (find_row id s)) (turns.more_others t))
  | err e ↦ e
]

-- UPDATE ... RETURNING lease_token, lease_expires_at: the new row, if one was changed.
unfoldable pub claim_update : ℕ → String → String → ℕ → Table → Table × Option Row
claim_update now id agent ttl t =
    let (t', n) = update_row id (claim_guard now) (claim_change now agent ttl) t in
    (t', if n == 0 then none else find_row id t')

lease_of : String → Row → Lease
lease_of agent r = record {
  agent_id = agent;
  expire_at = elim r.lease_expires_at [ none ↦ 0 | some e ↦ e ];
  fencing_token = r.lease_token;
}

claim_reply : ClaimTurns → String → String → Table × Result (Option Row) → Table × Result Lease
unfolding lease_of diagnose
claim_reply turns id agent (t, err e) = (t, err e)
claim_reply turns id agent (t, ok (some r)) = (t, ok (lease_of agent r))
claim_reply turns id agent (t, ok none) =
    let s = turns.others t in (turns.more_others s, err (diagnose turns id s))

unfoldable pub try_claim : ClaimTurns → String → String → ℕ → Table → Table × Result Lease
unfolding claim_reply claim_update
try_claim turns id agent ttl t =
    claim_reply turns id agent (run_write turns.update (λ now. claim_update now id agent ttl) t)

unfoldable pub heartbeat : Turn → String → String → ℕ → ℕ → Table → Table × Result (Unit {0})
heartbeat turn id agent token ttl t =
    let (t', n) =
      run_write turn (λ now. update_row id (heartbeat_guard agent token) (heartbeat_change now ttl))
        t in
    (t', require_row bad_token n)

-- A finish that matches no row is no error.
unfoldable pub finish : Turn → String → String → ℕ → Outcome → Table → Table × Result (Unit {0})
finish turn id agent token o t =
    let (t', n) =
      run_write turn (λ now. update_row id (finish_guard agent token) (finish_change o)) t in
    (t', ignore_rows n)

unfoldable pub set_status_queued : Turn → String → Table → Table × Result (Unit {0})
set_status_queued turn id t =
    let (t', n) = run_write turn (λ now. update_row id (requeue_guard now) requeue_change) t in
    (t', require_row job_not_found n)
