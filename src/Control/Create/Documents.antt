-- ===== src/Control/Create/Documents.antt =====
-- What createTask of cmd/control/main.go writes, over a document store that is a map: the index document
-- that no shard is.
use mc_prototype.Base.{
  sym, ◌∷◌, List, ℕ, ◌≡◌, ◌≢◌, refl, ◌∙◌, String, Option, Bool, true, false, str_ne,
}
use mathlib.Core.List.{[]}
use mc_prototype.Dht.Network.{Network}
use mc_prototype.Dht.Json.{Node}
use mc_prototype.Dht.Json.Medium.{IsMap}
use mc_prototype.Dht.Cas.OverMap.{put_json_cas_writes}
use mc_prototype.Task.Keys.{key_index_shard, key_index}
use mc_prototype.Control.World.{Codecs, AreFaithful}
use mc_prototype.Control.Create.{
  new_state, meta_of, put_json, key_state, key_meta, World, create_named, Turn, CreateTaskReq,
  put_state, create_task, create_flagged, create_ids, index_entry, old_index, index_check,
  put_index,
}
use mc_prototype.Dht.Json.Documents.{holds_put_json}
use mc_prototype.Task.Keys.Laws.{index_ne_state, index_ne_meta}
use mc_prototype.Task.Keys.Distinct.{global_ne_shard}
use mc_prototype.Text.Parts.{comma_parts}

module _ (n : Network) (ns : String) (c : Codecs n.Bytes) (holds : Node n → String → Option n.Bytes)
    (m : IsMap n ns holds) (f : AreFaithful n.tombstone c)
    (same_refl : (b : n.Bytes) → n.same b b ≡ true) where
  -- Other documents than those that createTask writes.
  holds-put_index :
      (id : String) (now : ℕ) (x : Node n × Bool) (j : String)
      → key_index ns ≢ j
      → holds (put_index n ns c id now x).0 j ≡ holds x.0 j
  unfolding put_index index_check
  holds-put_index id now (nd, false) j d = refl
  holds-put_index id now (nd, true) j d =
      let entry = index_entry id now (old_index n ns c (holds nd (key_index ns))) in
      let (b, written, read) = f.index.total entry in
      (put_json_cas_writes n ns holds m same_refl Unit (λ round. index_check n ns c id now) nd
          (key_index ns) b (rw (index_check, written) refl)).1
        j
      ∙ rw (str_ne (key_index ns) j d) refl

  holds-put_state :
      (q : CreateTaskReq) (now : ℕ) (x : Node n × Bool) (j : String)
      → key_state q.id ≢ j
      → key_index ns ≢ j
      → holds (put_state n ns c q now x).0 j ≡ holds x.0 j
  unfolding put_state
  holds-put_state q now (nd, false) j s d = refl
  holds-put_state q now (nd, true) j s d =
      holds-put_index q.id now (put_json n ns c.state nd (key_state q.id) (new_state q.id now)) j d
      ∙ holds_put_json n ns holds m c.state nd (key_state q.id) (new_state q.id now) j s

  holds-create_task :
      (q : CreateTaskReq) (now : ℕ) (nd : Node n) (j : String)
      → key_meta q.id ≢ j
      → key_state q.id ≢ j
      → key_index ns ≢ j
      → holds (create_task n ns c q now nd).0 j ≡ holds nd j
  unfolding create_task
  holds-create_task q now nd j a s d =
      holds-put_state q now (put_json n ns c.meta nd (key_meta q.id) (meta_of now q)) j s d
      ∙ holds_put_json n ns holds m c.meta nd (key_meta q.id) (meta_of now q) j a

  shard-create_ids :
      (turns : String → Turn) (clock : String → ℕ) (image : String) (command ids : List String)
      (w : World n) (shard : ℕ)
      → let k = key_index_shard ns shard in
        holds (create_ids n ns c turns clock image command ids w).node k ≡ holds w.node k
  unfolding create_ids create_named
  shard-create_ids turns clock image command [] w shard = refl
  shard-create_ids turns clock image command (id ∷ ids) w shard =
      shard-create_ids turns clock image command ids _ shard
      ∙ holds-create_task _ (clock id) w.node (key_index_shard ns shard)
          (λ e. index_ne_meta ns id shard (sym e)) (λ e. index_ne_state ns id shard (sym e))
          (global_ne_shard ns shard)

  -- The jobs of -create change no shard of the index.
  pub shard-create_flagged :
      (turns : String → Turn) (clock : String → ℕ) (create image cmd : String) (w : World n)
      (shard : ℕ)
      → let k = key_index_shard ns shard in
        holds (create_flagged n ns c turns clock create image cmd w).node k ≡ holds w.node k
  unfolding create_flagged
  shard-create_flagged turns clock create image cmd w shard =
      shard-create_ids turns clock image (comma_parts cmd) (comma_parts create) w shard
