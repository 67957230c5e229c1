-- ===== src/Lease/Update.antt =====
-- The writing statements of internal/lease/pg_store.go: a guard and a change of one row each, at the
-- instant that PostgreSQL's now() gives.
use mc_prototype.Base.{
  ◌≡◌, refl, ℕ, ◌+◌, ◌*◌, ◌/◌, String, Option, none, some, List, Bool, true, false, ◌&&◌, ◌||◌,
  str_eq, ltb, le_ℤ, eq_ℤ, int64,
}
use mc_prototype.Lease.Types.{
  JobStatus, queued, assigned, running, succeeded, failed, is_queued, is_active, DbJob, Manifest,
  Metrics, second,
}
use mc_prototype.Lease.Table.{Row}

-- now() + ($n || ' seconds')::interval, for int(ttl.Seconds()).
abbrev pub after_seconds : ℕ → ℕ → ℕ
after_seconds now ttl = now + ttl / second * second

-- lease_expires_at < now(): a comparison with NULL does not hold.
abbrev pub is_expired : ℕ → Option ℕ → Bool
is_expired now none = false
is_expired now (some e) = ltb e now

abbrev pub is_null {ℓ} : {A : Type ℓ} → Option A → Bool
is_null none = true
is_null (some _) = false

-- column = $n for a text column.
abbrev pub is_text : Option String → String → Bool
is_text none k = false
is_text (some s) k = str_eq s k

-- The row that CreateJob inserts: the columns it does not name take their defaults.
unfoldable pub new_row : DbJob → Row
new_row job = record {
  id = job.id;
  image = job.image;
  command = job.command;
  status = job.status;
  created_at = job.created_at;
  retry_count = 0;
  manifest_root_cid = none;
  manifest_providers = none;
  manifest_enc_meta = none;
  lease_agent = none;
  lease_expires_at = none;
  lease_token = 0;
  result_root_cid = none;
  artifacts = none;
  metrics = none;
}

unfoldable pub attach_change : Manifest → Row → Row
attach_change m r = record r {
  manifest_root_cid = some m.root_cid;
  manifest_providers = some m.providers;
  manifest_enc_meta = some m.enc_meta;
}

-- TryClaim takes a queued job whose lease is absent or over.
unfoldable pub claim_guard : ℕ → Row → Bool
claim_guard now r =
    is_queued r.status && (is_null r.lease_expires_at || is_expired now r.lease_expires_at)

unfoldable pub claim_change : ℕ → String → ℕ → Row → Row
claim_change now agent ttl r = record r {
  lease_agent = some agent;
  lease_expires_at = some (after_seconds now ttl);
  lease_token = r.lease_token + 1;
  status = assigned;
}

unfoldable pub heartbeat_guard : String → ℕ → Row → Bool
heartbeat_guard agent token r = is_text r.lease_agent agent && eq_ℤ r.lease_token (int64 token)

unfoldable pub heartbeat_change : ℕ → ℕ → Row → Row
heartbeat_change now ttl r = record r {
  lease_expires_at = some (after_seconds now ttl);
  status = running;
}

unfoldable pub finish_guard : String → ℕ → Row → Bool
finish_guard agent token r =
    (is_text r.lease_agent agent || is_null r.lease_agent) && le_ℤ r.lease_token (int64 token)

-- The parameters $4 to $7 of Finish.
pub record Outcome : Type 0 where
  pub succeeded : Bool
  pub result_cid : String
  pub artifacts : Option (List String)
  pub metrics : Option Metrics

abbrev pub final_status : Bool → JobStatus
final_status true = succeeded
final_status false = failed

unfoldable pub finish_change : Outcome → Row → Row
finish_change o r = record r {
  status = final_status o.succeeded;
  result_root_cid = some o.result_cid;
  artifacts = o.artifacts;
  metrics = o.metrics;
  lease_agent = none;
  lease_expires_at = none;
}

unfoldable pub requeue_guard : ℕ → Row → Bool
requeue_guard now r = is_active r.status && is_expired now r.lease_expires_at

unfoldable pub requeue_change : Row → Row
requeue_change r = record r {
  status = queued;
  lease_agent = none;
  lease_expires_at = none;
  retry_count = r.retry_count + 1;
}

-- No statement changes a row's id.
pub claim_change-id :
    (now : ℕ) (agent : String) (ttl : ℕ) (r : Row) → (claim_change now agent ttl r).id ≡ r.id
unfolding claim_change
claim_change-id now agent ttl r = refl

pub heartbeat_change-id : (now ttl : ℕ) (r : Row) → (heartbeat_change now ttl r).id ≡ r.id
unfolding heartbeat_change
heartbeat_change-id now ttl r = refl

pub requeue_change-id : (r : Row) → (requeue_change r).id ≡ r.id
unfolding requeue_change
requeue_change-id r = refl
