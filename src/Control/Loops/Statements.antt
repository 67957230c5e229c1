-- ===== src/Control/Loops/Statements.antt =====
-- The statements that the loops run on the table.
use mathlib.Core.List.{List, [], ◌∷◌}
use mc_prototype.Base.{ℕ, ◌-◌, ◌*◌, String}
use mc_prototype.Dht.Network.{Network}
use mc_prototype.Lease.Types.{second, DbJob, Result, ok, err}
use mc_prototype.Lease.Store.{Turn, set_status_queued}
use mc_prototype.Lease.Queries.{list_expired_leases, list_queued}
use mc_prototype.Lease.Table.{Table}
use mc_prototype.Lease.Statements.{
  IsHistory, IsHistory-same, IsHistory-then, set_status_queued-IsHistory,
}
use mc_prototype.Control.World.{Codecs, World}
use mc_prototype.Control.Loops.{
  on_requeue, requeue_expired, requeue_all, requeue_listed, requeue_tick, restore_job, restore_all,
  restore_listed, restore_jobs,
}

module _ (n : Network) (ns : String) (c : Codecs n.Bytes) where
  on_requeue-IsHistory :
      (now : ℕ) (id : String) (t : Table) (w : World n) (r : Result (Unit {0}))
      → IsHistory t w.table
      → IsHistory t (on_requeue n ns c now id w r).table
  unfolding on_requeue
  on_requeue-IsHistory now id t w (err e) h = h
  on_requeue-IsHistory now id t w (ok _) h = h

  requeue_expired-IsHistory :
      (turn : Turn) (now : ℕ) (id : String) (w : World n)
      → IsHistory w.table (requeue_expired n ns c turn now id w).table
  unfolding requeue_expired
  requeue_expired-IsHistory turn now id w =
      let (t, r) = set_status_queued turn id w.table in
      on_requeue-IsHistory now id w.table (record w { table = t }) r
        (set_status_queued-IsHistory turn id w.table)

  requeue_all-IsHistory :
      (turns : String → Turn) (now : ℕ) (ids : List String) (w : World n)
      → IsHistory w.table (requeue_all n ns c turns now ids w).table
  unfolding requeue_all
  requeue_all-IsHistory turns now [] w = IsHistory-same w.table
  requeue_all-IsHistory turns now (id ∷ ids) w =
      let w' = requeue_expired n ns c (turns id) now id w in
      IsHistory-then w.table w'.table (requeue_all n ns c turns now ids w').table
        (requeue_expired-IsHistory (turns id) now id w) (requeue_all-IsHistory turns now ids w')

  requeue_listed-IsHistory :
      (turns : String → Turn) (now : ℕ) (w : World n) (r : Result (List String))
      → IsHistory w.table (requeue_listed n ns c turns now w r).table
  unfolding requeue_listed
  requeue_listed-IsHistory turns now w (err e) = IsHistory-same w.table
  requeue_listed-IsHistory turns now w (ok ids) = requeue_all-IsHistory turns now ids w

  pub requeue_tick-IsHistory :
      (list : Turn) (turns : String → Turn) (now : ℕ) (w : World n)
      → IsHistory w.table (requeue_tick n ns c list turns now w).table
  unfolding requeue_tick
  requeue_tick-IsHistory list turns now w =
      requeue_listed-IsHistory turns now w (list_expired_leases list (now - 3 * second) w.table)

  restore_all-IsHistory :
      (clock shards : String → ℕ) (js : List DbJob) (w : World n)
      → IsHistory w.table (restore_all n ns c clock shards js w).table
  unfolding restore_all restore_job
  restore_all-IsHistory clock shards [] w = IsHistory-same w.table
  restore_all-IsHistory clock shards (j ∷ js) w =
      restore_all-IsHistory clock shards js (restore_job n ns c (clock j.id) (shards j.id) j w)

  restore_listed-IsHistory :
      (clock shards : String → ℕ) (w : World n) (r : Result (List DbJob))
      → IsHistory w.table (restore_listed n ns c clock shards w r).table
  unfolding restore_listed
  restore_listed-IsHistory clock shards w (err e) = IsHistory-same w.table
  restore_listed-IsHistory clock shards w (ok js) = restore_all-IsHistory clock shards js w

  pub restore_jobs-IsHistory :
      (list : Turn) (clock shards : String → ℕ) (w : World n)
      → IsHistory w.table (restore_jobs n ns c list clock shards w).table
  unfolding restore_jobs
  restore_jobs-IsHistory list clock shards w =
      restore_listed-IsHistory clock shards w (list_queued list w.table)
