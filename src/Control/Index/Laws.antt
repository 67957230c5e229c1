-- ===== src/Control/Index/Laws.antt =====
-- addToIndex over a document store that is a map.
use mc_prototype.Base.{
  [], ◌∷◌, ◌⊎◌, subst, str_eq, eq_iff, ℕ, ◌≡◌, ◌≢◌, refl, ap, sym, ◌∙◌, String, Option, none, some,
  Bool, Bool-cases, inl, inr, true, arith,
}
use mc_prototype.Dht.Network.{Network}
use mc_prototype.Dht.Json.{Node, put_json, get_json}
use mc_prototype.Dht.Json.Medium.{IsMap}
use mc_prototype.Dht.Json.Documents.{
  read_doc, get_json_value, holds_get_json, holds_put_json, put_json_doc,
}
use mc_prototype.Task.Types.{TaskIndex, no_index}
use mc_prototype.Task.Keys.{key_index_shard}
use mc_prototype.Control.World.{Codecs, AreFaithful}
use mc_prototype.Control.Announce.{mem}
use mc_prototype.Control.Announce.Laws.{mem-append-left, mem_last}
use mc_prototype.Control.Index.{index_add, add_entry, add_to_index}

module _ (n : Network) (ns : String) (c : Codecs n.Bytes) (holds : Node n → String → Option n.Bytes)
    (m : IsMap n ns holds) (f : AreFaithful n.tombstone c) where
  -- The ids in a shard of the index.
  abbrev pub Indexed : String → ℕ → Node n → Type 0
  Indexed id shard nd =
      mem id (read_doc c.index no_index (holds nd (key_index_shard ns shard))).0.ids ≡ true

  pub add_to_index-Indexed :
      (shard now : ℕ) (id : String) (nd : Node n)
      → let (nd', fine) = add_to_index n ns c shard now id nd in
        (fine ≡ true) × Indexed id shard nd'
  unfolding add_to_index add_entry index_add
  add_to_index-Indexed shard now id nd = elim (Bool-cases (mem id read.1.ids)) [
    | inl e ↦ rw e (refl, ap (λ (x : TaskIndex). mem id x.ids) (sym same) ∙ e)
    | inr e ↦
        rw e (put.0, ap (λ (x : TaskIndex × Bool). mem id x.0.ids) put.1 ∙ mem_last id read.1.ids)
  ]
    where
      read : Node n × TaskIndex × Bool
      read = get_json n ns c.index nd (key_index_shard ns shard) no_index

      same : read.1 ≡ (read_doc c.index no_index (holds read.0 (key_index_shard ns shard))).0
      same =
          get_json_value n ns holds m c.index nd (key_index_shard ns shard) no_index
          ∙ ap (λ (o : Option n.Bytes). (read_doc c.index no_index o).0)
              (sym (
                holds_get_json n ns holds m c.index nd (key_index_shard ns shard) no_index
                  (key_index_shard ns shard)))

      put :
          ((put_json n ns c.index read.0 (key_index_shard ns shard) (index_add id now read.1)).1
            ≡ true)
          × (read_doc c.index no_index (
                holds
                  (put_json n ns c.index read.0
                    (key_index_shard ns shard)
                    (index_add id now read.1)).0
                  (key_index_shard ns shard))
              ≡ (index_add id now read.1, true))
      put =
          put_json_doc n ns holds m c.index read.0 (key_index_shard ns shard) no_index
            (index_add id now read.1) f.index

  -- A document of the index, if there is one, that json.Unmarshal reads without an error.
  abbrev pub IsReadable : ℕ → Node n → Type 0
  IsReadable shard nd =
      (b : n.Bytes)
      → holds nd (key_index_shard ns shard) ≡ some b
      → (c.index.unmarshal b no_index).1 ≡ true

  -- The shard's document is there, can be read, and lists the job.
  pub record Listed (id : String) (shard : ℕ) (nd : Node n) : Type 0 where
    pub index : TaskIndex
    pub there : read_doc c.index no_index (holds nd (key_index_shard ns shard)) ≡ (index, true)
    pub has : mem id index.ids ≡ true

  readable_found :
      (id : String) (o : Option n.Bytes)
      → ((b : n.Bytes) → o ≡ some b → (c.index.unmarshal b no_index).1 ≡ true)
      → mem id (read_doc c.index no_index o).0.ids ≡ true
      → (read_doc c.index no_index o).1 ≡ true
  readable_found id none h k = absurd (ground arith)
  readable_found id (some b) h k = h b refl

  pub add_to_index-Listed :
      (shard now : ℕ) (id : String) (nd : Node n)
      → IsReadable shard nd
      → Listed id shard (add_to_index n ns c shard now id nd).0
  unfolding add_to_index add_entry index_add
  add_to_index-Listed shard now id nd legible = elim (Bool-cases (mem id read.1.ids)) [
    | inl e ↦ rw e (listed (ap (λ (x : TaskIndex). mem id x.ids) (sym value) ∙ e))
    | inr e ↦
        rw e
          (record { index = index_add id now read.1; there = put.1; has = mem_last id read.1.ids })
  ]
    where
      key : String
      key = key_index_shard ns shard

      read : Node n × TaskIndex × Bool
      read = get_json n ns c.index nd key no_index

      value : read.1 ≡ (read_doc c.index no_index (holds nd key)).0
      value = get_json_value n ns holds m c.index nd key no_index

      kept : holds read.0 key ≡ holds nd key
      kept = holds_get_json n ns holds m c.index nd key no_index key

      old : TaskIndex × Bool
      old = read_doc c.index no_index (holds nd key)

      listed : mem id old.0.ids ≡ true → Listed id shard read.0
      listed h = record {
        index = old.0;
        there =
            ap (read_doc c.index no_index) kept
            ∙ ground (arith, readable_found id (holds nd key) legible h);
        has = h;
      }

      put :
          ((put_json n ns c.index read.0 key (index_add id now read.1)).1 ≡ true)
          × (read_doc c.index no_index
                (holds (put_json n ns c.index read.0 key (index_add id now read.1)).0 key)
              ≡ (index_add id now read.1, true))
      put = put_json_doc n ns holds m c.index read.0 key no_index (index_add id now read.1) f.index

  pub holds_add_to_index :
      (shard now : ℕ) (id : String) (nd : Node n) (j : String)
      → key_index_shard ns shard ≢ j
      → holds (add_to_index n ns c shard now id nd).0 j ≡ holds nd j
  unfolding add_to_index add_entry
  holds_add_to_index shard now id nd j d = elim (Bool-cases (mem id read.1.ids)) [
    | inl e ↦ rw e kept
    | inr e ↦ rw e (
        holds_put_json n ns holds m c.index read.0 (key_index_shard ns shard)
          (index_add id now read.1) j d
        ∙ kept)
  ]
    where
      read : Node n × TaskIndex × Bool
      read = get_json n ns c.index nd (key_index_shard ns shard) no_index

      kept : holds read.0 j ≡ holds nd j
      kept = holds_get_json n ns holds m c.index nd (key_index_shard ns shard) no_index j

  -- Any shard's document afterwards: the one from before, or that with the id added.
  index_after :
      (shard now : ℕ) (id : String) (nd : Node n) (other : ℕ)
      → let nd' = (add_to_index n ns c shard now id nd).0 in
        let key = key_index_shard ns other in
        (holds nd' key ≡ holds nd key)
        ⊎ (read_doc c.index no_index (holds nd' key)
            ≡ (index_add id now (read_doc c.index no_index (holds nd key)).0, true))
  unfolding add_to_index add_entry
  index_after shard now id nd other = elim (Bool-cases (mem id read.1.ids)) [
    | inl e ↦ rw e (inl (kept key'))
    | inr e ↦ elim (Bool-cases (str_eq key key')) [
      | inl same ↦
          subst
            (λ (k : String).
              (holds (add_entry n ns c id now key read).0 k ≡ holds nd k)
              ⊎ (read_doc c.index no_index (holds (add_entry n ns c id now key read).0 k)
                  ≡ (index_add id now (read_doc c.index no_index (holds nd k)).0, true)))
            ((eq_iff key key').0 same)
            (rw e (
              inr (
                (put_json_doc n ns holds m c.index read.0 key no_index (index_add id now read.1)
                  f.index).1
                ∙ ap (λ (idx : TaskIndex). (index_add id now idx, true))
                    (get_json_value n ns holds m c.index nd key no_index))))
      | inr apart ↦ rw e (
          inl (
            holds_put_json n ns holds m c.index read.0 key (index_add id now read.1) key'
              (λ (k : key ≡ key'). ground (arith, apart, eq_iff key key', k))
            ∙ kept key'))
    ]
  ]
    where
      key : String
      key = key_index_shard ns shard

      key' : String
      key' = key_index_shard ns other

      read : Node n × TaskIndex × Bool
      read = get_json n ns c.index nd key no_index

      kept : (j : String) → holds read.0 j ≡ holds nd j
      kept j = holds_get_json n ns holds m c.index nd key no_index j

  pub Listed-add_to_index :
      (shard now : ℕ) (id : String) (nd : Node n) (listed : String) (other : ℕ)
      → Listed listed other nd
      → Listed listed other (add_to_index n ns c shard now id nd).0
  unfolding index_add
  Listed-add_to_index shard now id nd listed other l = elim (index_after shard now id nd other) [
    | inl same ↦ record {
      index = l.index;
      there = ap (read_doc c.index no_index) same ∙ l.there;
      has = l.has;
    }
    | inr added ↦ record {
      index = index_add id now l.index;
      there = added ∙ ap (λ (x : TaskIndex × Bool). (index_add id now x.0, true)) l.there;
      has = mem-append-left listed l.index.ids (id ∷ []) l.has;
    }
  ]

  pub IsReadable-add_to_index :
      (shard now : ℕ) (id : String) (nd : Node n) (other : ℕ)
      → IsReadable other nd
      → IsReadable other (add_to_index n ns c shard now id nd).0
  IsReadable-add_to_index shard now id nd other legible b e =
      elim (index_after shard now id nd other) [
        | inl same ↦ legible b (sym same ∙ e)
        | inr added ↦
            ap (λ (x : TaskIndex × Bool). x.1) (sym (ap (read_doc c.index no_index) e) ∙ added)
      ]
