-- ===== src/Control/World.antt =====
-- The state of the control server, the documents it keeps in the DHT, and its replies
-- (cmd/control/control_http.go).
use mc_prototype.Base.{ℕ, String, List, [], Option, Bool}
use mc_prototype.Dht.Network.{Network, Codec, IsFaithful}
use mc_prototype.Dht.Json.{Node}
use mc_prototype.Lease.Table.{Table}
use mc_prototype.Lease.Types
use mc_prototype.Task.Types.{
  Lease, Manifest, Provider, TaskMeta, TaskState, TaskIndex, no_lease, no_state, no_manifest,
  no_meta, no_index,
}

pub record TaskAd : Type 0 where
  pub job_id : String
  pub namespace : String
  pub topic : String
  pub demand_url : String
  pub exp : ℕ
  pub sig : String

pub record ManifestMirror : Type 0 where
  pub providers : List Provider
  pub exp : ℕ

abbrev pub no_ad : TaskAd
no_ad = record { job_id = ""; namespace = ""; topic = ""; demand_url = ""; exp = 0; sig = "" }

abbrev pub no_mirror : ManifestMirror
no_mirror = record { providers = []; exp = 0 }

-- encoding/json at the types of the program's documents.
pub record Codecs (Bytes : Type 0) : Type 0 where
  pub lease : Codec Bytes Lease
  pub state : Codec Bytes TaskState
  pub meta : Codec Bytes TaskMeta
  pub manifest : Codec Bytes Manifest
  pub mirror : Codec Bytes ManifestMirror
  pub ad : Codec Bytes TaskAd
  pub index : Codec Bytes TaskIndex

pub record AreFaithful {Bytes : Type 0} (tombstone : Bytes) (c : Codecs Bytes) : Type 0 where
  pub lease : IsFaithful tombstone no_lease c.lease
  pub state : IsFaithful tombstone no_state c.state
  pub meta : IsFaithful tombstone no_meta c.meta
  pub manifest : IsFaithful tombstone no_manifest c.manifest
  pub mirror : IsFaithful tombstone no_mirror c.mirror
  pub ad : IsFaithful tombstone no_ad c.ad
  pub index : IsFaithful tombstone no_index c.index

-- AnnounceManager: the sets are lists and functions; `trigger` is the channel of capacity 1.
pub record Manager : Type 0 where
  pub dirty : List String
  pub last : String → ℕ
  pub trigger : Bool

pub record World (n : Network) : Type 0 where
  pub table : Table
  pub node : Node n
  pub manager : Manager

-- The bodies of the replies; `text` is that of http.Error, without what is
-- formatted into it.
pub data Body : Type 0 where
  empty ok_true claim_refused : Body
  text : String → Body
  job_id : String → Body
  claimed : Lease → Body
  jobs : List Types.DbJob → Body
  job : Types.DbJob → Option Manifest → Body
  counts : (Types.JobStatus → ℕ) → Body
  secret_manifest : Manifest → Body
  lease_view : TaskState → Lease → Body

-- What a handler does with its connection: a status and a body, or a panic that net/http recovers.
pub data Response : Type 0 where
  reply : ℕ → Body → Response
  panicked : Response
