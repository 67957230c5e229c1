-- ===== src/Agent/Discovery/Flagged.antt =====
-- What an agent lists of the jobs that the flag -create of cmd/control/main.go makes, over a document
-- store that is a map.
use mc_prototype.Base.{
  ℕ, zero, suc, ◌≡◌, refl, ap, sym, ◌∙◌, String, List, Option, Bool, true, arith,
}
use mc_prototype.Dht.Network.{Network, Codec}
use mc_prototype.Dht.Json.{Node, get_json}
use mc_prototype.Dht.Json.Medium.{IsMap}
use mc_prototype.Dht.Json.Documents.{read_doc, get_json_value, get_json_ok, holds_get_json}
use mc_prototype.Task.Types.{TaskIndex, no_index}
use mc_prototype.Task.Keys.{key_index_shard, task_index_shard_count}
use mc_prototype.Lease.Store.{Turn}
use mc_prototype.Control.World.{Codecs, AreFaithful, World}
use mc_prototype.Control.Requests.{Env}
use mc_prototype.Control.Announce.{process}
use mc_prototype.Control.Announce.Rounds.{index-Apart, holds-process}
use mc_prototype.Control.Create.{create_flagged}
use mc_prototype.Control.Create.Documents.{shard-create_flagged}
use mc_prototype.Agent.Discovery.{index_ids, scan_shards, list_from_index}
use mc_prototype.Agent.Discovery.Ticks.{Agrees}
use mc_prototype.Base.{if◌then◌else◌, []}

module _ (n : Network) (ns : String) (c : Codec n.Bytes TaskIndex)
    (holds : Node n → String → Option n.Bytes) (m : IsMap n ns holds) where
  -- The shards of the index are the same.
  abbrev SameShards : Node n → Node n → Type 0
  SameShards nd nd' =
      (shard : ℕ) → holds nd (key_index_shard ns shard) ≡ holds nd' (key_index_shard ns shard)

  abbrev found_ids : TaskIndex × Bool → List String
  found_ids x = if x.1 then x.0.ids else []

  index_ids-found :
      (nd : Node n) (shard : ℕ)
      → index_ids n ns (get_json n ns c nd (key_index_shard ns shard) no_index)
        ≡ found_ids (read_doc c no_index (holds nd (key_index_shard ns shard)))
  unfolding index_ids
  index_ids-found nd shard = ground (
    arith,
    get_json_value n ns holds m c nd (key_index_shard ns shard) no_index,
    get_json_ok n ns holds m c nd (key_index_shard ns shard) no_index,
  )

  scan_shards-SameShards :
      (left from : ℕ) (nd nd' : Node n)
      → SameShards nd nd'
      → (scan_shards n ns c left from nd).1 ≡ (scan_shards n ns c left from nd').1
  unfolding scan_shards
  scan_shards-SameShards zero from nd nd' same = refl
  scan_shards-SameShards (suc left) from nd nd' same =
      let read = get_json n ns c nd (key_index_shard ns from) no_index in
      let read' = get_json n ns c nd' (key_index_shard ns from) no_index in
      let kept : SameShards read.0 read'.0 = λ s.
        holds_get_json n ns holds m c nd (key_index_shard ns from) no_index (key_index_shard ns s)
        ∙ same s
        ∙ sym (
            holds_get_json n ns holds m c nd' (key_index_shard ns from) no_index
              (key_index_shard ns s)) in
      let ids : index_ids n ns read ≡ index_ids n ns read' =
        index_ids-found nd from
        ∙ ap (λ o. found_ids (read_doc c no_index o)) (same from)
        ∙ sym (index_ids-found nd' from) in
      rw (ids, scan_shards-SameShards left (suc from) read.0 read'.0 kept) refl

  pub list_from_index-SameShards :
      (nd nd' : Node n)
      → SameShards nd nd'
      → (list_from_index n ns c nd).1 ≡ (list_from_index n ns c nd').1
  unfolding list_from_index
  list_from_index-SameShards nd nd' same =
      scan_shards-SameShards task_index_shard_count 0 nd nd' same

-- Over a DHT that is a map, in which a value is the same as itself: the flag -create puts its jobs into
-- no shard of the index. After main has created them, and after a further round of announcements, an
-- agent that sees the same documents lists the ids that were listed before, and no other.
pub flagged_jobs_unlisted :
    (n : Network) (ns : String) (c : Codecs n.Bytes) (env : Env)
    (holds : Node n → String → Option n.Bytes) (m : IsMap n ns holds)
    (f : AreFaithful n.tombstone c) (turns : String → Turn) (created : String → ℕ)
    (create image cmd : String) (w : World n) (t : ℕ) (clock : String → ℕ) (nd : Node n)
    → ((b : n.Bytes) → n.same b b ≡ true)
    → Agrees n ns holds m nd
        (process n ns c env t clock (create_flagged n ns c turns created create image cmd w)).node
    → (list_from_index n ns c.index nd).1 ≡ (list_from_index n ns c.index w.node).1
flagged_jobs_unlisted n ns c env holds m f turns created create image cmd w t clock nd refl_same
      agrees =
    list_from_index-SameShards n ns c.index holds m nd w.node (λ shard.
      agrees (key_index_shard ns shard)
      ∙ holds-process n ns c env holds m f "" t clock
          (create_flagged n ns c turns created create image cmd w) (key_index_shard ns shard)
          (index-Apart n ns c env holds m f "" shard)
      ∙ shard-create_flagged n ns c holds m f refl_same turns created create image cmd w shard)
