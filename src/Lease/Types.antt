-- ===== src/Lease/Types.antt =====
-- internal/lease/store.go and configs/schema: the values of the job store.
-- Times are numbers of nanoseconds since Go's zero time, and durations numbers of nanoseconds.
use mc_prototype.Base.{ℕ, String, List, Option, Bool, true, false}

pub data JobStatus : Type 0 where
  queued assigned running succeeded failed : JobStatus

abbrev pub is_queued : JobStatus → Bool
is_queued queued = true
is_queued _ = false

-- status IN ('assigned', 'running')
abbrev pub is_active : JobStatus → Bool
is_active assigned = true
is_active running = true
is_active _ = false

abbrev pub is_failed : JobStatus → Bool
is_failed failed = true
is_failed _ = false

pub record DbJob : Type 0 where
  pub id : String
  pub image : String
  pub command : List String
  pub status : JobStatus
  pub created_at : ℕ
  pub retry_count : ℕ

pub record Manifest : Type 0 where
  pub root_cid : String
  pub providers : List String
  pub enc_meta : String

pub record Lease : Type 0 where
  pub agent_id : String
  pub expire_at : ℕ
  pub fencing_token : ℕ

-- ErrJobNotFound, ErrNoManifest, ErrLeaseConflict, ErrBadToken; `database` is any error of the driver.
pub data StoreError : Type 0 where
  job_not_found no_manifest lease_conflict bad_token database : StoreError

pub data Result {ℓ} (A : Type ℓ) : Type ℓ where
  ok : A → Result A
  err : StoreError → Result A

-- What a finish stores in the column `metrics`: the member "reason" is all that the store reads back.
pub record Metrics : Type 0 where
  pub reason : Option String
  pub others : List (String × String)

abbrev pub second : ℕ
second = 1000000000
