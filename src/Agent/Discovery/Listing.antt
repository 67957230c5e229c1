-- ===== src/Agent/Discovery/Listing.antt =====
-- ListFromIndex over the documents of the sharded index.
use native.Mathlib.Decide.{dec_lt}
use mc_prototype.Base.{
  ℕ, zero, suc, ◌+◌, ◌≤◌, ◌<◌, ◌≡◌, sym, ap, ◌∙◌, String, Option, Bool, true, arith,
}
use mc_prototype.Dht.Network.{Network, Codec}
use mc_prototype.Dht.Json.{Node, get_json}
use mc_prototype.Dht.Json.Medium.{IsMap}
use mc_prototype.Dht.Json.Documents.{read_doc, get_json_found, holds_get_json}
use mc_prototype.Task.Types.{TaskIndex, no_index}
use mc_prototype.Task.Keys.{key_index_shard, task_index_shard_count}
use mc_prototype.Control.Announce.{mem}
use mc_prototype.Control.Announce.Laws.{mem-append-left, mem-append-right}
use mc_prototype.Agent.Discovery.{scan_shards, index_ids, list_from_index}

module _ (n : Network) (ns : String) (c : Codec n.Bytes TaskIndex)
    (holds : Node n → String → Option n.Bytes) (m : IsMap n ns holds) where
  scan_shards_lists :
      (left from shard : ℕ) (id : String) (idx : TaskIndex) (nd : Node n)
      → from ≤ shard
      → shard < from + left
      → read_doc c no_index (holds nd (key_index_shard ns shard)) ≡ (idx, true)
      → mem id idx.ids ≡ true
      → mem id (scan_shards n ns c left from nd).1 ≡ true
  unfolding scan_shards index_ids
  scan_shards_lists zero from shard id idx nd le lt there h = absurd (omega arith)
  scan_shards_lists (suc left) from shard id idx nd le lt there h =
      let found = get_json n ns c nd (key_index_shard ns from) no_index in
      let rest = (scan_shards n ns c left (suc from) found.0).1 in
      elim (dec_lt from shard) [
        | yes later ↦ mem-append-right id (index_ids n ns found) rest (
            scan_shards_lists left (suc from) shard id idx found.0 later (omega arith)
              (ap (read_doc c no_index) (
                  holds_get_json n ns holds m c nd (key_index_shard ns from) no_index
                    (key_index_shard ns shard))
                ∙ there)
              h)
        | no other ↦
            let here : shard ≡ from = omega arith in
            let read = get_json_found n ns holds m c nd (key_index_shard ns from) no_index idx (
              ap (λ s. read_doc c no_index (holds nd (key_index_shard ns s))) (sym here) ∙ there) in
            mem-append-left id (index_ids n ns found) rest
              (ap (λ (x : Node n × TaskIndex × Bool). mem id (index_ids n ns x)) read ∙ h)
      ]

  -- Over a DHT that is a map: a job whose id is in the document of any of the 32 shards of the index is
  -- among the jobs that ListFromIndex lists.
  pub list_from_index_lists :
      (shard : ℕ) (id : String) (idx : TaskIndex) (nd : Node n)
      → shard < task_index_shard_count
      → read_doc c no_index (holds nd (key_index_shard ns shard)) ≡ (idx, true)
      → mem id idx.ids ≡ true
      → mem id (list_from_index n ns c nd).1 ≡ true
  unfolding list_from_index
  list_from_index_lists shard id idx nd lt there h =
      scan_shards_lists task_index_shard_count 0 shard id idx nd (omega arith) (omega arith) there h
