-- ===== src/Control/Jobs/Statements.antt =====
-- The statements that createTaskHandler runs on the table, and the table after getTaskHandler.
use mc_prototype.Base.{
  ℕ, String, Option, none, some, Bool, true, false, Bool-cases, inl, inr, str_eq, refl, ◌≡◌,
}
use mc_prototype.Dht.Network.{Network}
use mc_prototype.Dht.Json.{Node, put_json}
use mc_prototype.Task.Keys.{key_meta, key_state}
use mc_prototype.Text.{trim_prefix}
use mc_prototype.Lease.Types.{DbJob, Result, ok, err}
use mc_prototype.Lease.Store.{Turn, create_job, get_job}
use mc_prototype.Lease.Table.{Table}
use mc_prototype.Lease.Statements.{IsHistory, IsHistory-same, create_job-IsHistory}
use mc_prototype.Control.World.{Codecs, World}
use mc_prototype.Control.Requests.{Env, Request, require_auth}
use mc_prototype.Control.Index.{add_to_index}
use mc_prototype.Control.Jobs.{
  CreateTaskReq, db_job, meta_of, new_state, create_indexed, create_state, create_meta,
  create_stored, create_body, create_task_handler, get_found, get_task_handler,
}

module _ (n : Network) (ns : String) (c : Codecs n.Bytes) where
  create_indexed-IsHistory :
      (id : String) (t : Table) (w : World n) (nd : Node n) (done : Bool)
      → IsHistory t w.table
      → IsHistory t (create_indexed n ns c id w (nd, done)).0.table
  unfolding create_indexed
  create_indexed-IsHistory id t w nd true h = h
  create_indexed-IsHistory id t w nd false h = h

  create_state-IsHistory :
      (now shard later : ℕ) (q : CreateTaskReq) (t : Table) (w : World n) (nd : Node n)
      (done : Bool)
      → IsHistory t w.table
      → IsHistory t (create_state n ns c now shard later q w (nd, done)).0.table
  unfolding create_state
  create_state-IsHistory now shard later q t w nd false h = h
  create_state-IsHistory now shard later q t w nd true h =
      let (nd', indexed) = add_to_index n ns c shard later q.id nd in
      create_indexed-IsHistory q.id t w nd' indexed h

  create_meta-IsHistory :
      (now shard later : ℕ) (q : CreateTaskReq) (t : Table) (w : World n) (nd : Node n)
      (done : Bool)
      → IsHistory t w.table
      → IsHistory t (create_meta n ns c now shard later q w (nd, done)).0.table
  unfolding create_meta
  create_meta-IsHistory now shard later q t w nd false h = h
  create_meta-IsHistory now shard later q t w nd true h =
      let (nd', put) = put_json n ns c.state nd (key_state q.id) (new_state q.id now) in
      create_state-IsHistory now shard later q t w nd' put h

  create_stored-IsHistory :
      (now shard later : ℕ) (q : CreateTaskReq) (t : Table) (w : World n) (r : Result (Unit {0}))
      → IsHistory t w.table
      → IsHistory t (create_stored n ns c now shard later q w r).0.table
  unfolding create_stored
  create_stored-IsHistory now shard later q t w (err e) h = h
  create_stored-IsHistory now shard later q t w (ok _) h =
      let (nd', put) = put_json n ns c.meta w.node (key_meta q.id) (meta_of now q) in
      create_meta-IsHistory now shard later q t w nd' put h

  create_body-IsHistory :
      (turn : Turn) (now shard later : ℕ) (w : World n) (body : Option CreateTaskReq)
      → IsHistory w.table (create_body n ns c turn now shard later w body).0.table
  unfolding create_body db_job
  create_body-IsHistory turn now shard later w none = IsHistory-same w.table
  create_body-IsHistory turn now shard later w (some q) = elim (Bool-cases (str_eq q.id "")) [
    | inl e ↦ rw e (IsHistory-same w.table)
    | inr e ↦
        let (t, r) = create_job turn (db_job now q) w.table in
        rw e (
          create_stored-IsHistory now shard later q w.table (record w { table = t }) r
            (create_job-IsHistory turn (db_job now q) w.table refl))
  ]

  pub create_task_handler-IsHistory :
      (env : Env) (turn : Turn) (now shard later : ℕ) (r : Request CreateTaskReq) (w : World n)
      → IsHistory w.table (create_task_handler n ns c env turn now shard later r w).0.table
  unfolding create_task_handler
  create_task_handler-IsHistory env turn now shard later r w =
      elim (Bool-cases (require_auth env r)) [
        | inr e ↦ rw e (IsHistory-same w.table)
        | inl e ↦ elim (Bool-cases (str_eq r.method "POST")) [
          | inr f ↦ rw (e, f) (IsHistory-same w.table)
          | inl f ↦ rw (e, f) (create_body-IsHistory turn now shard later w r.body)
        ]
      ]

  get_found_table :
      (id : String) (w : World n) (r : Result DbJob) → (get_found n ns c id w r).0.table ≡ w.table
  unfolding get_found
  get_found_table id w (ok j) = refl
  get_found_table id w (err e) = refl

  pub get_task_handler_table :
      (env : Env) (turn : Turn) (r : Request (Unit {0})) (w : World n)
      → (get_task_handler n ns c env turn r w).0.table ≡ w.table
  unfolding get_task_handler
  get_task_handler_table env turn r w =
      let id = trim_prefix r.path "/api/tasks/" in
      elim (Bool-cases (require_auth env r)) [
        | inr e ↦ rw e refl
        | inl e ↦ elim (Bool-cases (str_eq r.method "GET")) [
          | inr f ↦ rw (e, f) refl
          | inl f ↦ elim (Bool-cases (str_eq id "")) [
            | inl g ↦ rw (e, f, g) refl
            | inr g ↦ rw (e, f, g) (get_found_table id w (get_job turn id w.table))
          ]
        ]
      ]
