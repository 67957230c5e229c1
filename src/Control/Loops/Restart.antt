-- ===== src/Control/Loops/Restart.antt =====
-- What restoreJobsFromDemand brings back, over a document store that is a map.
use mc_prototype.Base.{ℕ, ◌≡◌, ◌≢◌, refl, ap, sym, ◌∙◌, String, Option}
use mc_prototype.Dht.Network.{Network}
use mc_prototype.Dht.Json.{Node, put_json}
use mc_prototype.Dht.Json.Medium.{IsMap}
use mc_prototype.Dht.Json.Documents.{read_doc, holds_put_json, put_json_doc}
use mc_prototype.Task.Types.{no_state, no_index}
use mc_prototype.Task.Keys.{key_state, key_meta, key_index_shard, key_manifest}
use mc_prototype.Task.Keys.Laws.{index_ne_state, index_ne_meta}
use mc_prototype.Task.Keys.Distinct.{
  state_ne_other, meta_ne_any_state, meta_ne_any_manifest, state_ne_any_manifest, index_ne_manifest,
}
use mc_prototype.Lease.Types.{DbJob}
use mc_prototype.Control.World.{Codecs, AreFaithful, World}
use mc_prototype.Control.Announce.Laws.{mem-enqueue-other, mem-enqueue}
use mc_prototype.Control.Index.Laws.{
  IsReadable, add_to_index-Listed, holds_add_to_index, Listed-add_to_index, IsReadable-add_to_index,
}
use mc_prototype.Control.Jobs.{new_state}
use mc_prototype.Control.Jobs.Waiting.{Waiting}
use mc_prototype.Control.Loops.{meta_of_job, restore_job}

module _ (n : Network) (ns : String) (c : Codecs n.Bytes) (holds : Node n → String → Option n.Bytes)
    (m : IsMap n ns holds) (f : AreFaithful n.tombstone c) where
  module _ (now shard : ℕ) (j : DbJob) (w : World n) where
    with_meta : Node n
    with_meta = (put_json n ns c.meta w.node (key_meta j.id) (meta_of_job n ns c j)).0

    with_state : Node n
    with_state = (put_json n ns c.state with_meta (key_state j.id) (new_state j.id now)).0

    -- The meta and state documents change nothing at other keys.
    holds-with_state :
        (k : String) → key_meta j.id ≢ k → key_state j.id ≢ k → holds with_state k ≡ holds w.node k
    unfolding with_state with_meta
    holds-with_state k a b =
        holds_put_json n ns holds m c.state with_meta (key_state j.id) (new_state j.id now) k b
        ∙ holds_put_json n ns holds m c.meta w.node (key_meta j.id) (meta_of_job n ns c j) k a

    index-with_state :
        (other : ℕ)
        → holds with_state (key_index_shard ns other) ≡ holds w.node (key_index_shard ns other)
    index-with_state other =
        holds-with_state (key_index_shard ns other) (λ e. index_ne_meta ns j.id other (sym e))
          (λ e. index_ne_state ns j.id other (sym e))

    IsReadable-with_state :
        (other : ℕ)
        → IsReadable n ns c holds m f other w.node
        → IsReadable n ns c holds m f other with_state
    IsReadable-with_state other legible b e = legible b (sym (index-with_state other) ∙ e)

    pub restored-Waiting :
        IsReadable n ns c holds m f shard w.node
        → Waiting n ns c holds m f j.id shard (restore_job n ns c now shard j w)
    unfolding restore_job with_state with_meta new_state
    restored-Waiting legible = record {
      state = new_state j.id now;
      stored =
          ap (read_doc c.state no_state) (
            holds_add_to_index n ns c holds m f shard now j.id with_state (key_state j.id)
              (index_ne_state ns j.id shard))
          ∙ (put_json_doc n ns holds m c.state with_meta (key_state j.id) no_state
              (new_state j.id now) f.state).1;
      queued = refl;
      listed =
          add_to_index-Listed n ns c holds m f shard now j.id with_state
            (IsReadable-with_state shard legible);
      enqueued = mem-enqueue j.id w.manager;
    }

    pub restore_job-IsReadable :
        (other : ℕ)
        → IsReadable n ns c holds m f other w.node
        → IsReadable n ns c holds m f other (restore_job n ns c now shard j w).node
    unfolding restore_job with_state with_meta
    restore_job-IsReadable other legible =
        IsReadable-add_to_index n ns c holds m f shard now j.id with_state other
          (IsReadable-with_state other legible)

    -- Another job waits on.
    pub restore_job-Waiting :
        (id : String) (other : ℕ)
        → j.id ≢ id
        → Waiting n ns c holds m f id other w
        → Waiting n ns c holds m f id other (restore_job n ns c now shard j w)
    unfolding restore_job with_state with_meta
    restore_job-Waiting id other d a = record {
      state = a.state;
      stored =
          ap (read_doc c.state no_state) (
            holds_add_to_index n ns c holds m f shard now j.id with_state (key_state id)
              (index_ne_state ns id shard)
            ∙ holds-with_state (key_state id) (meta_ne_any_state ns id j.id)
                (state_ne_other ns id j.id d))
          ∙ a.stored;
      queued = a.queued;
      listed = Listed-add_to_index n ns c holds m f shard now j.id with_state id other (record {
        index = a.listed.index;
        there = ap (read_doc c.index no_index) (index-with_state other) ∙ a.listed.there;
        has = a.listed.has;
      });
      enqueued = mem-enqueue-other id j.id w.manager a.enqueued;
    }

    pub restore_job-manifest :
        (id : String)
        → holds (restore_job n ns c now shard j w).node (key_manifest id)
          ≡ holds w.node (key_manifest id)
    unfolding restore_job with_state with_meta
    restore_job-manifest id =
        holds_add_to_index n ns c holds m f shard now j.id with_state (key_manifest id)
          (index_ne_manifest ns id shard)
        ∙ holds-with_state (key_manifest id) (meta_ne_any_manifest ns id j.id)
            (state_ne_any_manifest ns id j.id)
