-- ===== src/Control/Jobs.antt =====
-- createTaskHandler, getTaskHandler, listTasksHandler, statsHandler and agentManifestHandler of
-- cmd/control/control_http.go.
pub mod Laws
pub mod Waiting
pub mod Statements
use mc_prototype.Base.{
  ltb, ℕ, String, Option, none, some, Bool, not, ◌&&◌, ◌||◌, str_eq, true, false, if◌then◌else◌,
  List, ℤ, pos,
}
use mc_prototype.Dht.Network.{Network}
use mc_prototype.Dht.Json.{Node, put_json, get_json}
use mc_prototype.Task.Types.{Manifest, TaskMeta, TaskState, queued, no_state, no_manifest}
use mc_prototype.Task.Keys.{key_state, key_meta, key_manifest}
use mc_prototype.Text.{trim_prefix, atoi, byte_length, contains}
use mc_prototype.Lease.Types
use mc_prototype.Lease.Types.{Result, ok, err}
use mc_prototype.Lease.Store.{Turn, create_job, get_job}
use mc_prototype.Lease.Queries.{list_paged, count_by_status}
use mc_prototype.Control.World.{
  Codecs, World, Body, text, job_id, jobs, job, counts, secret_manifest, Response, reply,
}
use mc_prototype.Control.Requests.{Env, Request, require_auth, path_parts, four_parts}
use mc_prototype.Control.Announce.{enqueue}
use mc_prototype.Control.Index.{add_to_index}

pub record CreateTaskReq : Type 0 where
  pub id : String
  pub image : String
  pub command : List String

unfoldable pub db_job : ℕ → CreateTaskReq → Types.DbJob
db_job now q = record {
  id = q.id;
  image = q.image;
  command = q.command;
  status = Types.queued;
  created_at = now;
  retry_count = 0;
}

unfoldable pub meta_of : ℕ → CreateTaskReq → TaskMeta
meta_of now q = record { id = q.id; image = q.image; command = q.command; created_at = now }

-- The state document of a new job.
unfoldable pub new_state : String → ℕ → TaskState
new_state id now = record no_state { id = id; status = queued; updated_at = now; version = pos 1 }

unfoldable pub validate_agent_token : String → String → Bool
validate_agent_token token id = ltb 10 (byte_length token) && contains token id

module _ (n : Network) (ns : String) (c : Codecs n.Bytes) where
  -- The job's documents and the announcement; the first failure ends it.
  create_indexed : String → World n → Node n × Bool → World n × Response
  create_indexed id w (nd, false) = (record w { node = nd }, reply 500 (text "index update failed"))
  create_indexed id w (nd, true) =
      (record w { node = nd; manager = enqueue id w.manager }, reply 201 (job_id id))

  create_state : ℕ → ℕ → ℕ → CreateTaskReq → World n → Node n × Bool → World n × Response
  unfolding create_indexed new_state
  create_state now shard later q w (nd, false) =
      (record w { node = nd }, reply 500 (text "dht put state failed"))
  create_state now shard later q w (nd, true) =
      create_indexed q.id w (add_to_index n ns c shard later q.id nd)

  create_meta : ℕ → ℕ → ℕ → CreateTaskReq → World n → Node n × Bool → World n × Response
  unfolding create_state new_state
  create_meta now shard later q w (nd, false) =
      (record w { node = nd }, reply 500 (text "dht put meta failed"))
  create_meta now shard later q w (nd, true) =
      create_state now shard later q w
        (put_json n ns c.state nd (key_state q.id) (new_state q.id now))

  create_stored : ℕ → ℕ → ℕ → CreateTaskReq → World n → Result (Unit {0}) → World n × Response
  unfolding create_meta meta_of
  create_stored now shard later q w (err e) = (w, reply 500 (text "db create failed"))
  create_stored now shard later q w (ok _) =
      create_meta now shard later q w (put_json n ns c.meta w.node (key_meta q.id) (meta_of now q))

  create_body : Turn → ℕ → ℕ → ℕ → World n → Option CreateTaskReq → World n × Response
  unfolding create_stored db_job
  create_body turn now shard later w none = (w, reply 400 (text "bad request"))
  create_body turn now shard later w (some q) =
      if str_eq q.id ""
      then (w, reply 400 (text "bad request"))
      else (let (t, r) = create_job turn (db_job now q) w.table in
          create_stored now shard later q (record w { table = t }) r)

  -- `shard` is what mrand.Intn chooses, `later` the index's reading of the clock.
  unfoldable pub create_task_handler :
      Env → Turn → ℕ → ℕ → ℕ → Request CreateTaskReq → World n → World n × Response
  unfolding create_body
  create_task_handler env turn now shard later r w =
      if not (require_auth env r)
      then (w, reply 401 (text "unauthorized"))
      else if not (str_eq r.method "POST")
      then (w, reply 405 (text "method not allowed"))
      else create_body turn now shard later w r.body

  -- The manifest that a reply shows: one that is read without error and has a root. The reply to a
  -- user leaves out enc_meta.
  unfoldable pub shown : Manifest × Bool → Option Manifest
  shown (man, read) = if read && not (str_eq man.root_cid "") then some man else none

  hide_secret : Option Manifest → Option Manifest
  hide_secret none = none
  hide_secret (some man) = some (record man { enc_meta = "" })

  get_found : String → World n → Result Types.DbJob → World n × Response
  unfolding shown hide_secret
  get_found id w (err e) = (w, reply 404 (text "not found"))
  get_found id w (ok j) =
      let (nd, man, read) = get_json n ns c.manifest w.node (key_manifest id) no_manifest in
      (record w { node = nd }, reply 200 (job j (hide_secret (shown (man, read)))))

  unfoldable pub get_task_handler : Env → Turn → Request (Unit {0}) → World n → World n × Response
  unfolding get_found
  get_task_handler env turn r w =
      let id = trim_prefix r.path "/api/tasks/" in
      if not (require_auth env r)
      then (w, reply 401 (text "unauthorized"))
      else if not (str_eq r.method "GET")
      then (w, reply 405 (text "method not allowed"))
      else if str_eq id ""
      then (w, reply 404 (text "404 page not found"))
      else get_found id w (get_job turn id w.table)

  agent_shown : World n → Node n × Manifest × Bool → World n × Response
  unfolding shown
  agent_shown w (nd, man, read) = elim (shown (man, read)) [
    | none ↦ (record w { node = nd }, reply 404 (text "manifest not found"))
    | some m ↦ (record w { node = nd }, reply 200 (secret_manifest m))
  ]

  agent_job : String → World n → Option String → World n × Response
  unfolding agent_shown
  agent_job token w none = (w, reply 400 (text "bad path"))
  agent_job token w (some id) =
      if str_eq token "" || not (validate_agent_token token id)
      then (w, reply 401 (text "unauthorized"))
      else agent_shown w (get_json n ns c.manifest w.node (key_manifest id) no_manifest)

  unfoldable pub agent_manifest_handler : Request (Unit {0}) → World n → World n × Response
  unfolding agent_job
  agent_manifest_handler r w =
      agent_job r.query_token w (four_parts "internal" "agents" "manifest" (path_parts r))

-- A number of the query, or the default.
query_number : ℤ → String → ℤ
query_number default s =
    if str_eq s "" then default else elim (atoi s) [ none ↦ default | some z ↦ z ]

on_read : {A : Type 0} → (A → Body) → String → Result A → Response
on_read f e (ok a) = reply 200 (f a)
on_read f e (err _) = reply 500 (text e)

unfoldable pub list_tasks_handler :
    {n : Network} → Env → Turn → Request (Unit {0}) → World n → Response
unfolding query_number on_read
list_tasks_handler env turn r w =
    let limit = query_number (pos 100) r.query_limit in
    let offset = query_number (pos 0) r.query_offset in
    if not (require_auth env r)
    then reply 401 (text "unauthorized")
    else if not (str_eq r.method "GET")
    then reply 405 (text "method not allowed")
    else on_read jobs "db list failed" (list_paged turn limit offset w.table)

unfoldable pub stats_handler : {n : Network} → Env → Turn → Request (Unit {0}) → World n → Response
unfolding on_read
stats_handler env turn r w =
    if not (require_auth env r)
    then reply 401 (text "unauthorized")
    else on_read counts "count failed" (count_by_status turn w.table)
