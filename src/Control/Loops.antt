-- ===== src/Control/Loops.antt =====
-- The loops of cmd/control/main.go, one round each, and what the server does when it starts.
pub mod Laws
pub mod Restart
pub mod Restored
pub mod Requeues
pub mod Recovered
pub mod Statements
use mc_prototype.Base.{◌-◌, ◌*◌, ℕ, String, List, [], ◌∷◌, suc64}
use mc_prototype.Dht.Network.{Network}
use mc_prototype.Dht.Json.{Node, put_json, get_json, del_json}
use mc_prototype.Task.Types.{TaskState, TaskMeta, queued, no_state}
use mc_prototype.Task.Keys.{key_state, key_meta, key_lease}
use mc_prototype.Lease.Types.{second, DbJob, Result, ok, err}
use mc_prototype.Lease.Store.{Turn, set_status_queued}
use mc_prototype.Lease.Queries.{list_expired_leases, list_queued}
use mc_prototype.Control.World.{Codecs, Manager, World}
use mc_prototype.Control.Announce.{enqueue}
use mc_prototype.Control.Index.{add_to_index}
use mc_prototype.Control.Jobs.{new_state}

unfoldable pub requeued_state : String → ℕ → TaskState → TaskState
requeued_state id now st = record st {
  id = id;
  status = queued;
  assigned_to = "";
  updated_at = now;
  version = suc64 st.version;
}

module _ (n : Network) (ns : String) (c : Codecs n.Bytes) where
  unfoldable pub update_dht_state_queued : String → ℕ → Node n → Node n
  unfolding requeued_state
  update_dht_state_queued id now nd =
      let (nd1, st, _) = get_json n ns c.state nd (key_state id) no_state in
      (put_json n ns c.state nd1 (key_state id) (requeued_state id now st)).0

  on_requeue : ℕ → String → World n → Result (Unit {0}) → World n
  unfolding update_dht_state_queued
  on_requeue now id w (err e) = w
  on_requeue now id w (ok _) = record w {
    node = update_dht_state_queued id now (del_json n ns w.node (key_lease id)).0;
    manager = enqueue id w.manager;
  }

  -- The body of requeueLoop's inner loop.
  unfoldable pub requeue_expired : Turn → ℕ → String → World n → World n
  unfolding on_requeue
  requeue_expired turn now id w =
      let (t, r) = set_status_queued turn id w.table in on_requeue now id (record w { table = t }) r

  unfoldable pub requeue_all : (String → Turn) → ℕ → List String → World n → World n
  unfolding requeue_expired
  requeue_all turns now [] w = w
  requeue_all turns now (id ∷ ids) w =
      requeue_all turns now ids (requeue_expired (turns id) now id w)

  requeue_listed : (String → Turn) → ℕ → World n → Result (List String) → World n
  unfolding requeue_all
  requeue_listed turns now w (err e) = w
  requeue_listed turns now w (ok ids) = requeue_all turns now ids w

  -- One tick of requeueLoop.
  unfoldable pub requeue_tick : Turn → (String → Turn) → ℕ → World n → World n
  unfolding requeue_listed
  requeue_tick list turns now w =
      requeue_listed turns now w (list_expired_leases list (now - 3 * second) w.table)

  abbrev pub meta_of_job : DbJob → TaskMeta
  meta_of_job j = record {
    id = j.id;
    image = j.image;
    command = j.command;
    created_at = j.created_at;
  }

  unfoldable pub restore_job : ℕ → ℕ → DbJob → World n → World n
  unfolding new_state
  restore_job now shard j w =
      let nd1 = (put_json n ns c.meta w.node (key_meta j.id) (meta_of_job j)).0 in
      let nd2 = (put_json n ns c.state nd1 (key_state j.id) (new_state j.id now)).0 in
      record w {
        node = (add_to_index n ns c shard now j.id nd2).0;
        manager = enqueue j.id w.manager;
      }

  restore_all : (String → ℕ) → (String → ℕ) → List DbJob → World n → World n
  unfolding restore_job
  restore_all clock shards [] w = w
  restore_all clock shards (j ∷ js) w =
      restore_all clock shards js (restore_job (clock j.id) (shards j.id) j w)

  restore_listed : (String → ℕ) → (String → ℕ) → World n → Result (List DbJob) → World n
  unfolding restore_all
  restore_listed clock shards w (err e) = w
  restore_listed clock shards w (ok js) = restore_all clock shards js w

  -- restoreJobsFromDemand, with the clock and the shard that each job meets.
  unfoldable pub restore_jobs : Turn → (String → ℕ) → (String → ℕ) → World n → World n
  unfolding restore_listed
  restore_jobs list clock shards w = restore_listed clock shards w (list_queued list w.table)

enqueue_all : List DbJob → Manager → Manager
enqueue_all [] m = m
enqueue_all (j ∷ js) m = enqueue_all js (enqueue j.id m)

enqueue_listed : Manager → Result (List DbJob) → Manager
unfolding enqueue_all
enqueue_listed m (err e) = m
enqueue_listed m (ok js) = enqueue_all js m

-- One tick of reannounceQueuedLoop.
unfoldable pub reannounce_tick : {n : Network} → Turn → World n → World n
unfolding enqueue_listed
reannounce_tick list w = record w { manager = enqueue_listed w.manager (list_queued list w.table) }
