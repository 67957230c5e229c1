-- ===== src/Control/Jobs/Laws.antt =====
-- What createTaskHandler publishes, over a document store that is a map.
use mc_prototype.Base.{
  ℕ, ◌≡◌, ◌≢◌, refl, ap, sym, ◌∙◌, String, Option, none, some, true, arith, eq_refl, eq_iff, str_ne,
}
use mc_prototype.Dht.Network.{Network}
use mc_prototype.Dht.Json.{Node, put_json}
use mc_prototype.Dht.Json.Medium.{IsMap}
use mc_prototype.Dht.Json.Documents.{read_doc, holds_put_json, put_json_doc, put_json_done}
use mc_prototype.Task.Types.{no_state, no_meta}
use mc_prototype.Task.Keys.{key_state, key_meta, key_index_shard}
use mc_prototype.Task.Keys.Laws.{state_ne_meta, index_ne_state, index_ne_meta}
use mc_prototype.Lease.Table.{find_row, insert_row, find_row-insert_row}
use mc_prototype.Lease.Update.{new_row}
use mc_prototype.Lease.Store.{at, create_job}
use mc_prototype.Control.World.{Codecs, AreFaithful, World, job_id, reply}
use mc_prototype.Lease.Types.{ok}
use mc_prototype.Lease.Types as Types
use mc_prototype.Task.Types.{queued}
use mc_prototype.Base.{pos}
use mc_prototype.Control.Requests.{Env, Request, require_auth}
use mc_prototype.Control.Announce.{mem, enqueue}
use mc_prototype.Control.Announce.Laws.{mem-enqueue}
use mc_prototype.Control.Index.Laws.{
  IsReadable, Listed, add_to_index-Listed, Indexed, add_to_index-Indexed, holds_add_to_index,
}
use mc_prototype.Control.Index.{add_to_index}
use mc_prototype.Control.Jobs.{
  CreateTaskReq, db_job, meta_of, new_state, create_indexed, create_state, create_meta,
  create_stored, create_body, create_task_handler,
}

-- A request that gets past the handler's checks.
pub record Accepted (env : Env) (r : Request CreateTaskReq) (q : CreateTaskReq) : Type 0 where
  pub auth : require_auth env r ≡ true
  pub post : r.method ≡ "POST"
  pub decoded : r.body ≡ some q
  pub named : q.id ≢ ""

module _ (n : Network) (ns : String) (c : Codecs n.Bytes) (holds : Node n → String → Option n.Bytes)
    (m : IsMap n ns holds) (f : AreFaithful n.tombstone c) where
  -- The documents of a new job, over any node.
  module _ (now shard later : ℕ) (q : CreateTaskReq) (nd : Node n) where
    with_meta : Node n
    with_meta = (put_json n ns c.meta nd (key_meta q.id) (meta_of now q)).0

    with_state : Node n
    with_state = (put_json n ns c.state with_meta (key_state q.id) (new_state q.id now)).0

    pub published : Node n
    published = (add_to_index n ns c shard later q.id with_state).0

    pub record Published : Type 0 where
      pub meta : read_doc c.meta no_meta (holds published (key_meta q.id)) ≡ (meta_of now q, true)
      pub state :
          read_doc c.state no_state (holds published (key_state q.id)) ≡ (new_state q.id now, true)
      pub index : Indexed n ns c holds m f q.id shard published

    pub holds-published :
        (j : String)
        → key_meta q.id ≢ j
        → key_state q.id ≢ j
        → key_index_shard ns shard ≢ j
        → holds published j ≡ holds nd j
    unfolding published with_state with_meta
    holds-published j a b d =
        holds_add_to_index n ns c holds m f shard later q.id with_state j d
        ∙ holds_put_json n ns holds m c.state with_meta (key_state q.id) (new_state q.id now) j b
        ∙ holds_put_json n ns holds m c.meta nd (key_meta q.id) (meta_of now q) j a

    pub published-Published : Published
    unfolding published with_state with_meta
    published-Published = record {
      meta =
          ap (read_doc c.meta no_meta) (
            holds_add_to_index n ns c holds m f shard later q.id with_state (key_meta q.id)
              (index_ne_meta ns q.id shard)
            ∙ holds_put_json n ns holds m c.state with_meta (key_state q.id) (new_state q.id now)
                (key_meta q.id) (state_ne_meta ns q.id))
          ∙ (put_json_doc n ns holds m c.meta nd (key_meta q.id) no_meta (meta_of now q) f.meta).1;
      state =
          ap (read_doc c.state no_state) (
            holds_add_to_index n ns c holds m f shard later q.id with_state (key_state q.id)
              (index_ne_state ns q.id shard))
          ∙ (put_json_doc n ns holds m c.state with_meta (key_state q.id) no_state
              (new_state q.id now) f.state).1;
      index = (add_to_index-Indexed n ns c holds m f shard later q.id with_state).1;
    }

    pub published-Listed :
        IsReadable n ns c holds m f shard nd → Listed n ns c holds m f q.id shard published
    unfolding published with_state with_meta
    published-Listed legible =
        add_to_index-Listed n ns c holds m f shard later q.id with_state
          (λ (b : n.Bytes) e. legible b (sym kept ∙ e))
      where
        kept : holds with_state (key_index_shard ns shard) ≡ holds nd (key_index_shard ns shard)
        kept =
            holds_put_json n ns holds m c.state with_meta (key_state q.id) (new_state q.id now)
              (key_index_shard ns shard) (λ e. index_ne_state ns q.id shard (sym e))
            ∙ holds_put_json n ns holds m c.meta nd (key_meta q.id) (meta_of now q)
                (key_index_shard ns shard) (λ e. index_ne_meta ns q.id shard (sym e))

  add_to_index_done :
      (shard now : ℕ) (id : String) (nd : Node n)
      → add_to_index n ns c shard now id nd ≡ ((add_to_index n ns c shard now id nd).0, true)
  add_to_index_done shard now id nd =
      ground (arith, (add_to_index-Indexed n ns c holds m f shard now id nd).0)

  create_runs :
      (now shard later : ℕ) (q : CreateTaskReq) (w : World n)
      → create_stored n ns c now shard later q w (ok tt) ≡ (
        record w { node = published now shard later q w.node; manager = enqueue q.id w.manager },
        reply 201 (job_id q.id),
      )
  unfolding create_stored create_meta create_state create_indexed published with_state with_meta
  create_runs now shard later q w = rw (
    put_json_done n ns holds m c.meta w.node (key_meta q.id) no_meta (meta_of now q) f.meta,
    put_json_done n ns holds m c.state with1 (key_state q.id) no_state (new_state q.id now) f.state,
    add_to_index_done shard later q.id with2,
  )
    where
      with1 : Node n
      with1 = (put_json n ns c.meta w.node (key_meta q.id) (meta_of now q)).0

      with2 : Node n
      with2 = (put_json n ns c.state with1 (key_state q.id) (new_state q.id now)).0

  pub Accepted-runs :
      (env : Env) (s now shard later : ℕ) (r : Request CreateTaskReq) (q : CreateTaskReq)
      (w : World n)
      → Accepted env r q
      → create_task_handler n ns c env (at s) now shard later r w ≡ (
        record {
          table = insert_row (new_row (db_job now q)) w.table;
          node = published now shard later q w.node;
          manager = enqueue q.id w.manager;
        },
        reply 201 (job_id q.id),
      )
  unfolding create_task_handler create_body create_job
  Accepted-runs env s now shard later r q w a = ground (
    arith,
    a.auth,
    a.post,
    eq_iff r.method "POST",
    a.decoded,
    str_ne q.id "" a.named,
    create_runs now shard later q
        (record w { table = insert_row (new_row (db_job now q)) w.table }),
  )

  row_inserted :
      (now : ℕ) (q : CreateTaskReq) (w : World n)
      → find_row q.id w.table ≡ none
      → find_row q.id (insert_row (new_row (db_job now q)) w.table) ≡ some (new_row (db_job now q))
  unfolding db_job new_row
  row_inserted now q w h =
      find_row-insert_row q.id (new_row (db_job now q)) w.table ∙ rw (h, eq_refl q.id) refl

  -- Over a DHT that is a map: an accepted request to create a job with a new id is answered with
  -- 201, where the database answers; its row is queued, with the request's image and command, without
  -- a lease and with the token 0; the DHT has its meta document and a queued state document of version 1
  -- and its id in the index, and it is enqueued for announcement.
  pub create_publishes :
      (env : Env) (s now shard later : ℕ) (r : Request CreateTaskReq) (q : CreateTaskReq)
      (w : World n)
      → Accepted env r q
      → find_row q.id w.table ≡ none
      → let (w', response) = create_task_handler n ns c env (at s) now shard later r w in
        (response ≡ reply 201 (job_id q.id))
        × (find_row q.id w'.table
            ≡ some (record {
              id = q.id;
              image = q.image;
              command = q.command;
              status = Types.queued;
              created_at = now;
              retry_count = 0;
              manifest_root_cid = none;
              manifest_providers = none;
              manifest_enc_meta = none;
              lease_agent = none;
              lease_expires_at = none;
              lease_token = 0;
              result_root_cid = none;
              artifacts = none;
              metrics = none;
            }))
        × (read_doc c.meta no_meta (holds w'.node (key_meta q.id))
            ≡ (record { id = q.id; image = q.image; command = q.command; created_at = now }, true))
        × (read_doc c.state no_state (holds w'.node (key_state q.id)) ≡ (
          record {
            id = q.id;
            status = queued;
            version = pos 1;
            updated_at = now;
            assigned_to = "";
            started_at = none;
            finished_at = none;
          },
          true,
        ))
        × Indexed n ns c holds m f q.id shard w'.node
        × (mem q.id w'.manager.dirty ≡ true)
  unfolding new_row db_job meta_of new_state
  create_publishes env s now shard later r q w a h =
      let p = published-Published now shard later q w.node in
      rw (Accepted-runs env s now shard later r q w a)
        (refl, row_inserted now q w h, p.meta, p.state, p.index, mem-enqueue q.id w.manager)
