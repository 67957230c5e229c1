-- ===== src/Control/Index.antt =====
-- addToIndex of cmd/control/control_http.go: the job's id in one shard, which mrand.Intn chooses.
pub mod Laws
use mc_prototype.Base.{ℕ, String, [], ◌∷◌, ◌++◌, Bool, true, suc64, if◌then◌else◌}
use mc_prototype.Dht.Network.{Network}
use mc_prototype.Dht.Json.{Node, put_json, get_json}
use mc_prototype.Task.Types.{TaskIndex, no_index}
use mc_prototype.Task.Keys.{key_index_shard}
use mc_prototype.Control.World.{Codecs}
use mc_prototype.Control.Announce.{mem}

unfoldable pub index_add : String → ℕ → TaskIndex → TaskIndex
index_add id now idx = record idx {
  ids = idx.ids ++ id ∷ [];
  updated_at = now;
  version = suc64 idx.version;
}

module _ (n : Network) (ns : String) (c : Codecs n.Bytes) where
  unfoldable pub add_entry : String → ℕ → String → Node n × TaskIndex × Bool → Node n × Bool
  add_entry id now key (nd, idx, ok) =
      if mem id idx.ids then (nd, true) else put_json n ns c.index nd key (index_add id now idx)

  -- The Boolean is `err == nil`.
  unfoldable pub add_to_index : ℕ → ℕ → String → Node n → Node n × Bool
  unfolding add_entry
  add_to_index shard now id nd =
      let key = key_index_shard ns shard in
      add_entry id now key (get_json n ns c.index nd key no_index)
