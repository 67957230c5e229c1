-- ===== src/Agent/Discovery.antt =====
-- pkg/agent/discover.go and ads.go: which jobs an agent tries to claim.
pub mod Laws
pub mod Listing
pub mod Offers
pub mod Announced
pub mod Ticks
pub mod Created
pub mod Restarted
pub mod Flagged
pub mod Requeued
use mc_prototype.Base.{
  ℕ, suc, zero, ◌+◌, String, List, [], ◌∷◌, ◌++◌, Option, none, some, Bool, true, false, not, ◌&&◌,
  ◌||◌, str_eq, ltb, filter, if◌then◌else◌,
}
use mc_prototype.Dht.Network.{Network, Codec}
use mc_prototype.Dht.Json.{Node, get_json}
use mc_prototype.Task.Types.{Provider, TaskState, TaskIndex, is_queued, no_state, no_index}
use mc_prototype.Task.Keys.{
  key_state, key_task_ad, key_p2p_manifest_mirror, key_index_shard, task_index_shard_count,
}
use mc_prototype.Text.{has_prefix}
use mc_prototype.Control.World.{TaskAd, no_ad}

pub record ManifestAd : Type 0 where
  pub root_cid : String
  pub providers : List Provider
  pub rendezvous : String
  pub transports : List String
  pub exp : ℕ

abbrev pub no_manifest_ad : ManifestAd
no_manifest_ad = record { root_cid = ""; providers = []; rendezvous = ""; transports = []; exp = 0 }

unfoldable pub has_url : List String → Bool
has_url [] = false
has_url (a ∷ others) = (has_prefix a "http://" || has_prefix a "https://") || has_url others

abbrev pub no_addrs : List String → Bool
no_addrs [] = true
no_addrs (a ∷ others) = false

unfoldable pub is_usable : Provider → Bool
unfolding has_url
is_usable p = not (str_eq p.peer_id "" || no_addrs p.addrs) && not (has_url p.addrs)

unfoldable pub filter_providers : List Provider → List Provider
unfolding is_usable
filter_providers ps = filter is_usable ps

-- What onCandidate is called with; a nil slice of providers is the empty one.
pub record Candidate : Type 0 where
  pub job_id : String
  pub providers : List Provider
  pub demand_url : String

abbrev pub seen_gap : ℕ
seen_gap = 500000000

module _ (n : Network) (ns : String) where
  index_ids : Node n × TaskIndex × Bool → List String
  index_ids (nd, idx, true) = idx.ids
  index_ids (nd, idx, false) = []

  scan_shards : Codec n.Bytes TaskIndex → ℕ → ℕ → Node n → Node n × List String
  unfolding index_ids
  scan_shards c zero shard nd = (nd, [])
  scan_shards c (suc left) shard nd =
      let found = get_json n ns c nd (key_index_shard ns shard) no_index in
      let (nd', ids) = scan_shards c left (suc shard) found.0 in (nd', index_ids found ++ ids)

  -- ListFromIndex.
  unfoldable pub list_from_index : Codec n.Bytes TaskIndex → Node n → Node n × List String
  unfolding scan_shards
  list_from_index c nd = scan_shards c task_index_shard_count 0 nd

  -- readTaskAd and readManifestMirror: the document, unless it is missing or its time is over.
  unfoldable pub read_task_ad : Codec n.Bytes TaskAd → ℕ → String → Node n → Node n × Option TaskAd
  read_task_ad c now id nd =
      let (nd', ad, found) = get_json n ns c nd (key_task_ad ns id) no_ad in
      (nd', if not found || ltb ad.exp now then none else some ad)

  unfoldable pub read_manifest_mirror :
      Codec n.Bytes ManifestAd → ℕ → String → Node n → Node n × Option ManifestAd
  read_manifest_mirror c now id nd =
      let (nd', m, found) = get_json n ns c nd (key_p2p_manifest_mirror id) no_manifest_ad in
      (nd', if not found || ltb m.exp now then none else some m)

module _ (n : Network) (ns : String) (states : Codec n.Bytes TaskState) (ads : Codec n.Bytes TaskAd)
    (mirrors : Codec n.Bytes ManifestAd) where
  with_mirror : String → String → Node n × Option ManifestAd → Node n × Option Candidate
  with_mirror id url (nd, none) = (nd, none)
  with_mirror id url (nd, some m) = (
    nd,
    some (record { job_id = id; providers = filter_providers m.providers; demand_url = url }),
  )

  with_ad : ℕ → String → Node n × Option TaskAd → Node n × Option Candidate
  unfolding with_mirror
  with_ad now id (nd, none) = (nd, none)
  with_ad now id (nd, some ad) =
      with_mirror id ad.demand_url (read_manifest_mirror n ns mirrors now id nd)

  -- The job was handed on less than half a second ago.
  recently : Option ℕ → ℕ → Bool
  recently none now = false
  recently (some t) now = ltb now (t + seen_gap)

  with_state : ℕ → Option ℕ → String → Node n × TaskState × Bool → Node n × Option Candidate
  unfolding with_ad recently
  with_state now seen id (nd, st, found) =
      if (found && not (is_queued st.status)) || recently seen now
      then (nd, none)
      else with_ad now id (read_task_ad n ns ads now id nd)

  -- handleJob, where `seen` is when the job was last handed on; the caller records a new time where a
  -- candidate results. The clock does not advance inside.
  unfoldable pub handle_job : ℕ → Option ℕ → String → Node n → Node n × Option Candidate
  unfolding with_state
  handle_job now seen id nd =
      if str_eq id ""
      then (nd, none)
      else with_state now seen id (get_json n ns states nd (key_state id) no_state)

  see : (String → Option ℕ) → String → ℕ → String → Option ℕ
  see seen id t j = if str_eq id j then some t else seen j

  -- The ids of one tick of Run, in order: `seen` is the map of that name, `now` and `later` are the
  -- clock when a job is looked at and when onCandidate has returned.
  unfoldable pub discover_ids :
      (String → ℕ)
      → (String → ℕ)
      → List String
      → (String → Option ℕ)
      → Node n
      → Node n × (String → Option ℕ) × List Candidate
  unfolding see
  discover_ids now later [] seen nd = (nd, seen, [])
  discover_ids now later (id ∷ ids) seen nd =
      let (nd', found) = handle_job (now id) (seen id) id nd in
      elim found [
        | none ↦ discover_ids now later ids seen nd'
        | some c ↦
            let (nd'', seen', others) = discover_ids now later ids (see seen id (later id)) nd' in
            (nd'', seen', c ∷ others)
      ]

  -- One tick of Run.
  unfoldable pub discover_tick :
      Codec n.Bytes TaskIndex
      → (String → ℕ)
      → (String → ℕ)
      → (String → Option ℕ)
      → Node n
      → Node n × (String → Option ℕ) × List Candidate
  discover_tick c now later seen nd =
      let (nd', ids) = list_from_index n ns c nd in discover_ids now later ids seen nd'
