-- ===== src/Control/Loops/Requeues.antt =====
-- What requeueLoop leaves of the documents, the rows and the announcements of other jobs, over a document
-- store that is a map.
use mc_prototype.Base.{
  ℕ, ◌≡◌, ◌≢◌, refl, ap, ◌∙◌, String, List, [], ◌∷◌, Option, some, true, eq_iff, arith, filter,
}
use mc_prototype.Dht.Network.{Network}
use mc_prototype.Dht.Json.{Node, get_json, del_json}
use mc_prototype.Dht.Json.Medium.{IsMap}
use mc_prototype.Dht.Json.Documents.{holds_get_json, holds_put_json}
use mc_prototype.Task.Types.{no_state}
use mc_prototype.Task.Keys.{key_state, key_lease, key_manifest}
use mc_prototype.Task.Keys.Distinct.{lease_ne_any_manifest, state_ne_any_manifest}
use mc_prototype.Lease.Types.{Result, ok, err}
use mc_prototype.Lease.Table.{Row, Table, find_row}
use mc_prototype.Lease.Update.{requeue_guard}
use mc_prototype.Lease.Store.{Turn, at, set_status_queued}
use mc_prototype.Lease.History.{requeues, exec, effect, find_row-exec}
use mc_prototype.Lease.Queries.{list_expired_leases}
use mc_prototype.Control.World.{Codecs, AreFaithful, World}
use mc_prototype.Control.Announce.{mem, enqueue}
use mc_prototype.Control.Announce.Laws.{mem-enqueue-other}
use mc_prototype.Control.Loops.{
  requeued_state, update_dht_state_queued, on_requeue, requeue_expired, requeue_all, requeue_listed,
  requeue_tick,
}
use mc_prototype.Control.Loops.Restored.{row_ids}

module _ (n : Network) (ns : String) (c : Codecs n.Bytes) (holds : Node n → String → Option n.Bytes)
    (m : IsMap n ns holds) (f : AreFaithful n.tombstone c) where
  module _ (now : ℕ) (x : String) where
    holds-on_requeue :
        (w : World n) (r : Result (Unit {0})) (j : String)
        → key_state x ≢ j
        → key_lease x ≢ j
        → holds (on_requeue n ns c now x w r).node j ≡ holds w.node j
    unfolding on_requeue update_dht_state_queued
    holds-on_requeue w (err e) j a b = refl
    holds-on_requeue w (ok _) j a b =
        let nd = (del_json n ns w.node (key_lease x)).0 in
        let read = get_json n ns c.state nd (key_state x) no_state in
        holds_put_json n ns holds m c.state read.0 (key_state x) (requeued_state x now read.1) j a
        ∙ holds_get_json n ns holds m c.state nd (key_state x) no_state j
        ∙ m.holds_del w.node (key_lease x) j b

    table-on_requeue :
        (w : World n) (r : Result (Unit {0})) → (on_requeue n ns c now x w r).table ≡ w.table
    unfolding on_requeue
    table-on_requeue w (err e) = refl
    table-on_requeue w (ok _) = refl

    last-on_requeue :
        (w : World n) (r : Result (Unit {0}))
        → (on_requeue n ns c now x w r).manager.last ≡ w.manager.last
    unfolding on_requeue enqueue
    last-on_requeue w (err e) = refl
    last-on_requeue w (ok _) = refl

    mem-on_requeue :
        (w : World n) (r : Result (Unit {0})) (id : String)
        → mem id w.manager.dirty ≡ true
        → mem id (on_requeue n ns c now x w r).manager.dirty ≡ true
    unfolding on_requeue
    mem-on_requeue w (err e) id h = h
    mem-on_requeue w (ok _) id h = mem-enqueue-other id x w.manager h

    module _ (turn : Turn) (w : World n) where
      abbrev written : Table × Result (Unit {0})
      written = set_status_queued turn x w.table

      pub holds-requeue_expired :
          (j : String)
          → key_state x ≢ j
          → key_lease x ≢ j
          → holds (requeue_expired n ns c turn now x w).node j ≡ holds w.node j
      unfolding requeue_expired
      holds-requeue_expired j a b =
          holds-on_requeue (record w { table = written.0 }) written.1 j a b

      last-requeue_expired : (requeue_expired n ns c turn now x w).manager.last ≡ w.manager.last
      unfolding requeue_expired
      last-requeue_expired = last-on_requeue (record w { table = written.0 }) written.1

      pub mem-requeue_expired :
          (id : String)
          → mem id w.manager.dirty ≡ true
          → mem id (requeue_expired n ns c turn now x w).manager.dirty ≡ true
      unfolding requeue_expired
      mem-requeue_expired id h = mem-on_requeue (record w { table = written.0 }) written.1 id h

    table-requeue_expired :
        (s : ℕ) (w : World n)
        → (requeue_expired n ns c (at s) now x w).table ≡ exec s (requeues x) w.table
    unfolding requeue_expired set_status_queued exec
    table-requeue_expired s w =
        table-on_requeue (record w { table = (set_status_queued (at s) x w.table).0 })
          (set_status_queued (at s) x w.table).1

    pub other_row :
        (s : ℕ) (w : World n) (id : String) (row : Row)
        → x ≢ id
        → find_row id w.table ≡ some row
        → find_row id (requeue_expired n ns c (at s) now x w).table ≡ some row
    unfolding effect
    other_row s w id row d h =
        ap (find_row id) (table-requeue_expired s w)
        ∙ find_row-exec s (requeues x) id w.table h
        ∙ ground (arith, eq_iff x id, d)

  module _ (turns : String → Turn) (now : ℕ) where
    holds-requeue_all :
        (ids : List String) (w : World n) (j : String)
        → ((x : String) → key_state x ≢ j)
        → ((x : String) → key_lease x ≢ j)
        → holds (requeue_all n ns c turns now ids w).node j ≡ holds w.node j
    unfolding requeue_all
    holds-requeue_all [] w j a b = refl
    holds-requeue_all (x ∷ ids) w j a b =
        holds-requeue_all ids (requeue_expired n ns c (turns x) now x w) j a b
        ∙ holds-requeue_expired now x (turns x) w j (a x) (b x)

    last-requeue_all :
        (ids : List String) (w : World n)
        → (requeue_all n ns c turns now ids w).manager.last ≡ w.manager.last
    unfolding requeue_all
    last-requeue_all [] w = refl
    last-requeue_all (x ∷ ids) w =
        last-requeue_all ids (requeue_expired n ns c (turns x) now x w)
        ∙ last-requeue_expired now x (turns x) w

    module _ (s : ℕ) (w : World n) where
      pub manifest-requeue_tick :
          (id : String)
          → holds (requeue_tick n ns c (at s) turns now w).node (key_manifest id)
            ≡ holds w.node (key_manifest id)
      unfolding requeue_tick list_expired_leases requeue_listed
      manifest-requeue_tick id =
          holds-requeue_all (row_ids (filter (requeue_guard s) w.table)) w (key_manifest id)
            (λ x. state_ne_any_manifest ns id x) (λ x. lease_ne_any_manifest ns id x)

      pub last-requeue_tick : (requeue_tick n ns c (at s) turns now w).manager.last ≡ w.manager.last
      unfolding requeue_tick list_expired_leases requeue_listed
      last-requeue_tick = last-requeue_all (row_ids (filter (requeue_guard s) w.table)) w
