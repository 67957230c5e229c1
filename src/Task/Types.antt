-- ===== src/Task/Types.antt =====
-- internal/task/types.go. Times are numbers of nanoseconds since Go's zero time, so that the zero
-- time is 0; an int64 is an integer that wraps by `suc64`.
use mc_prototype.Base.{ℕ, ℤ, pos, String, List, [], Option, none, Bool, true, false}

pub data TaskStatus : Type 0 where
  unset queued assigned running succeeded failed : TaskStatus

abbrev pub is_queued : TaskStatus → Bool
is_queued queued = true
is_queued _ = false

abbrev pub is_active : TaskStatus → Bool
is_active assigned = true
is_active running = true
is_active _ = false

pub record Lease : Type 0 where
  pub owner : String
  pub nonce : String
  pub expires : ℕ
  pub version : ℤ

pub record Provider : Type 0 where
  pub peer_id : String
  pub addrs : List String
  pub relays : List String
  pub caps : List String

pub record Manifest : Type 0 where
  pub root_cid : String
  pub providers : List Provider
  pub enc_meta : String
  pub rendezvous : String
  pub transports : List String
  pub version : ℤ
  pub updated_at : ℕ

-- The members of TaskMeta that the program sets.
pub record TaskMeta : Type 0 where
  pub id : String
  pub image : String
  pub command : List String
  pub created_at : ℕ

-- The members of TaskState that the program reads or sets.
pub record TaskState : Type 0 where
  pub id : String
  pub status : TaskStatus
  pub version : ℤ
  pub updated_at : ℕ
  pub assigned_to : String
  pub started_at : Option ℕ
  pub finished_at : Option ℕ

pub record TaskIndex : Type 0 where
  pub ids : List String
  pub updated_at : ℕ
  pub version : ℤ

-- Go's zero values: what a target holds before a document is read into it.
abbrev pub no_lease : Lease
no_lease = record { owner = ""; nonce = ""; expires = 0; version = pos 0 }

abbrev pub no_manifest : Manifest
no_manifest = record {
  root_cid = "";
  providers = [];
  enc_meta = "";
  rendezvous = "";
  transports = [];
  version = pos 0;
  updated_at = 0;
}

abbrev pub no_state : TaskState
no_state = record {
  id = "";
  status = unset;
  version = pos 0;
  updated_at = 0;
  assigned_to = "";
  started_at = none;
  finished_at = none;
}

abbrev pub no_meta : TaskMeta
no_meta = record { id = ""; image = ""; command = []; created_at = 0 }

abbrev pub no_index : TaskIndex
no_index = record { ids = []; updated_at = 0; version = pos 0 }
