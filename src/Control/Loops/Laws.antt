-- ===== src/Control/Loops/Laws.antt =====
-- What requeueLoop does to a job whose lease is over, over a document store that is a map.
use mc_prototype.Base.{ℕ, ◌≡◌, refl, ap, ◌∙◌, String, Option, some, Bool, true, eq_refl}
use mc_prototype.Dht.Network.{Network}
use mc_prototype.Dht.Json.{Node, get_json, del_json}
use mc_prototype.Dht.Json.Medium.{IsMap}
use mc_prototype.Dht.Json.Documents.{
  read_doc, get_json_value, holds_get_json, holds_put_json, put_json_doc, del_json_doc,
}
use mc_prototype.Task.Types.{TaskState, no_state, no_lease}
use mc_prototype.Task.Keys.{key_state, key_lease}
use mc_prototype.Task.Keys.Laws.{lease_ne_state, state_ne_lease}
use mc_prototype.Lease.Table.{Row, find_row, hits}
use mc_prototype.Lease.Update.{requeue_guard, requeue_change}
use mc_prototype.Lease.Store.{at}
use mc_prototype.Lease.Store.Writes.{set_status_queued_hit, set_status_queued_miss}
use mc_prototype.Lease.History.{requeues, find_row-exec, effect}
use mc_prototype.Control.World.{Codecs, AreFaithful, World}
use mc_prototype.Control.Announce.{mem}
use mc_prototype.Control.Announce.Laws.{mem-enqueue}
use mc_prototype.Control.Loops.{
  requeued_state, update_dht_state_queued, on_requeue, requeue_expired,
}

-- A job that the table does not requeue (its lease was renewed or ended after the list was read) is
-- left as it is, in the table, in the DHT and in the announcements.
pub requeue_missed :
    (n : Network) (ns : String) (c : Codecs n.Bytes) (s now : ℕ) (id : String) (w : World n)
    → hits (requeue_guard s) (find_row id w.table) ≡ 0
    → requeue_expired n ns c (at s) now id w ≡ w
unfolding requeue_expired on_requeue
requeue_missed n ns c s now id w h = rw (set_status_queued_miss s id w.table h) refl

module _ (n : Network) (ns : String) (c : Codecs n.Bytes) (holds : Node n → String → Option n.Bytes)
    (m : IsMap n ns holds) (f : AreFaithful n.tombstone c) where
  -- The mirror of a requeued job: its state is queued, and it has no lease.
  pub record Requeued (id : String) (now : ℕ) (nd nd' : Node n) : Type 0 where
    pub state :
        read_doc c.state no_state (holds nd' (key_state id))
        ≡ (requeued_state id now (read_doc c.state no_state (holds nd (key_state id))).0, true)
    pub lease : (read_doc c.lease no_lease (holds nd' (key_lease id))).0 ≡ no_lease

  mirror-Requeued :
      (id : String) (now : ℕ) (nd : Node n)
      → Requeued id now nd
          (update_dht_state_queued n ns c id now (del_json n ns nd (key_lease id)).0)
  unfolding update_dht_state_queued
  mirror-Requeued id now nd = record {
    state =
        (put_json_doc n ns holds m c.state read.0 (key_state id) no_state
          (requeued_state id now read.1) f.state).1
        ∙ ap (λ (st : TaskState). (requeued_state id now st, true)) value;
    lease =
        ap (λ (o : Option n.Bytes). (read_doc c.lease no_lease o).0)
          (holds_put_json n ns holds m c.state read.0 (key_state id) (requeued_state id now read.1)
              (key_lease id) (state_ne_lease ns id)
            ∙ holds_get_json n ns holds m c.state nd1 (key_state id) no_state (key_lease id))
        ∙ del_json_doc n ns holds m c.lease nd (key_lease id) no_lease f.lease;
  }
    where
      nd1 : Node n
      nd1 = (del_json n ns nd (key_lease id)).0

      read : Node n × TaskState × Bool
      read = get_json n ns c.state nd1 (key_state id) no_state

      value : read.1 ≡ (read_doc c.state no_state (holds nd (key_state id))).0
      value =
          get_json_value n ns holds m c.state nd1 (key_state id) no_state
          ∙ ap (λ (o : Option n.Bytes). (read_doc c.state no_state o).0)
              (m.holds_del nd (key_lease id) (key_state id) (lease_ne_state ns id))

  -- A job whose lease is over is requeued in the table, its mirror has it queued and without a lease,
  -- and it is enqueued for announcement.
  pub requeue_announces :
      (s now : ℕ) (id : String) (w : World n) (row : Row)
      → find_row id w.table ≡ some row
      → requeue_guard s row ≡ true
      → let w' = requeue_expired n ns c (at s) now id w in
        (find_row id w'.table ≡ some (requeue_change row))
        × Requeued id now w.node w'.node
        × (mem id w'.manager.dirty ≡ true)
  unfolding requeue_expired on_requeue effect
  requeue_announces s now id w row h g = rw (set_status_queued_hit s id w.table h g) (
    find_row-exec s (requeues id) id w.table h ∙ rw (eq_refl id, g) refl,
    mirror-Requeued id now w.node,
    mem-enqueue id w.manager,
  )
