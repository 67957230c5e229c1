-- ===== src/Control/Jobs/Waiting.antt =====
-- A job that waits in the DHT and for its announcement, over a document store that is a map.
use mc_prototype.Base.{◌≡◌, String, Option, ℕ, true}
use mc_prototype.Dht.Network.{Network}
use mc_prototype.Dht.Json.{Node}
use mc_prototype.Dht.Json.Medium.{IsMap}
use mc_prototype.Dht.Json.Documents.{read_doc}
use mc_prototype.Task.Types.{TaskState, is_queued, no_state}
use mc_prototype.Task.Keys.{key_state}
use mc_prototype.Control.World.{Codecs, AreFaithful, World}
use mc_prototype.Control.Announce.{mem}
use mc_prototype.Control.Index.Laws.{Listed}

-- The state document is queued, a shard lists the job, and it is a candidate for announcement.
pub record Waiting (n : Network) (ns : String) (c : Codecs n.Bytes)
    (holds : Node n → String → Option n.Bytes) (m : IsMap n ns holds)
    (f : AreFaithful n.tombstone c) (id : String) (shard : ℕ) (w : World n) : Type 0 where
  pub state : TaskState
  pub stored : read_doc c.state no_state (holds w.node (key_state id)) ≡ (state, true)
  pub queued : is_queued state.status ≡ true
  pub listed : Listed n ns c holds m f id shard w.node
  pub enqueued : mem id w.manager.dirty ≡ true
