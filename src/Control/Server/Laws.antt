-- ===== src/Control/Server/Laws.antt =====
-- The job table of the server as a transition system, by the histories of statements of Lease.History.
use mathlib.Core.List.{List, [], ◌∷◌}
use mc_prototype.Base.{refl, String, Bool, All}
use mc_prototype.Dht.Network.{Network}
use mc_prototype.Lease.Invariant.{CreatesQueued, Consistent}
use mc_prototype.Lease.Statements.{
  IsHistory, IsHistory-same, IsHistory-then, IsHistory-Consistent, AreHistories,
}
use mc_prototype.Control.World.{Codecs, World}
use mc_prototype.Control.Requests.{Env}
use mc_prototype.Control.Claims.Statements.{try_claim_handler-IsHistory}
use mc_prototype.Control.Heartbeats.Statements.{heartbeat_handler-IsHistory}
use mc_prototype.Control.Finishes.Statements.{finish_handler-IsHistory}
use mc_prototype.Control.Releases.Statements.{
  release_handler_table, force_requeue_handler_table, debug_lease_handler_table,
}
use mc_prototype.Control.Jobs.Statements.{create_task_handler-IsHistory, get_task_handler_table}
use mc_prototype.Control.Manifests.Statements.{manifest_handler-IsHistory}
use mc_prototype.Control.Announce.Statements.{process_table}
use mc_prototype.Control.Loops.Statements.{requeue_tick-IsHistory, restore_jobs-IsHistory}
use mc_prototype.Control.Create.Statements.{create_flagged-IsHistory}
use mc_prototype.Control.Loops.{reannounce_tick}
use mc_prototype.Control.Server.{
  Event, try_claims, heartbeats, finishes, releases, force_requeues, creates_task, gets_task,
  sets_manifest, shows_lease, announces, requeues, reannounces, restores, creates_flagged,
  elsewhere, network, step, serve,
}

-- Other sessions run statements, and create jobs as queued only.
abbrev pub Admissible : {n : Network} → Event n → Type 0
Admissible (try_claims turns now r) = AreHistories turns
Admissible (elsewhere calls) = All CreatesQueued calls
Admissible _ = Unit

module _ (n : Network) (ns : String) (c : Codecs n.Bytes) (env : Env)
    (decodes_peer parses_addr : String → Bool) where
  step-IsHistory :
      (e : Event n) (w : World n)
      → Admissible e
      → IsHistory w.table (step n ns c env decodes_peer parses_addr e w).table
  unfolding step reannounce_tick
  step-IsHistory (try_claims turns now r) w h =
      try_claim_handler-IsHistory n ns c env turns now r w h
  step-IsHistory (heartbeats turn now r) w h = heartbeat_handler-IsHistory n ns c env turn now r w
  step-IsHistory (finishes turn now r) w h = finish_handler-IsHistory n ns c env turn now r w
  step-IsHistory (releases now r) w h =
      rw (release_handler_table n ns c env now r w) (IsHistory-same w.table)
  step-IsHistory (force_requeues now r) w h =
      rw (force_requeue_handler_table n ns c env now r w) (IsHistory-same w.table)
  step-IsHistory (creates_task turn now shard later r) w h =
      create_task_handler-IsHistory n ns c env turn now shard later r w
  step-IsHistory (gets_task turn r) w h =
      rw (get_task_handler_table n ns c env turn r w) (IsHistory-same w.table)
  step-IsHistory (sets_manifest turn now r) w h =
      manifest_handler-IsHistory n ns c decodes_peer parses_addr env turn now r w
  step-IsHistory (shows_lease r) w h =
      rw (debug_lease_handler_table n ns c env r w) (IsHistory-same w.table)
  step-IsHistory (announces now clock) w h =
      rw (process_table n ns c env now clock w) (IsHistory-same w.table)
  step-IsHistory (requeues list turns now) w h = requeue_tick-IsHistory n ns c list turns now w
  step-IsHistory (reannounces list) w h = IsHistory-same w.table
  step-IsHistory (restores list clock shards) w h =
      restore_jobs-IsHistory n ns c list clock shards w
  step-IsHistory (creates_flagged turns clock create image cmd) w h =
      create_flagged-IsHistory n ns c turns clock create image cmd w
  step-IsHistory (elsewhere calls) w h = record { calls = calls; queued = h; runs = refl }
  step-IsHistory (network net) w h = IsHistory-same w.table

  -- Whatever requests the server answers and whatever its loops do, in any order and with any answers
  -- of the database and the DHT, the table that results is one that a sequence of the store's
  -- statements makes of the first, in which jobs are created as queued only; where the statements of
  -- other sessions are such, too.
  pub serve-IsHistory :
      (es : List (Event n)) (w : World n)
      → All Admissible es
      → IsHistory w.table (serve n ns c env decodes_peer parses_addr es w).table
  unfolding serve
  serve-IsHistory [] w h = IsHistory-same w.table
  serve-IsHistory (e ∷ es) w h =
      let w' = step n ns c env decodes_peer parses_addr e w in
      IsHistory-then w.table w'.table (serve n ns c env decodes_peer parses_addr es w').table
        (step-IsHistory e w h.0) (serve-IsHistory es w' h.1)

  -- Every job of every table that the server reaches from a consistent one, while other sessions create
  -- jobs as queued only, is assigned or running exactly while it has an owner and an expiry.
  pub serve-Consistent :
      (es : List (Event n)) (w : World n)
      → All Admissible es
      → Consistent w.table
      → Consistent (serve n ns c env decodes_peer parses_addr es w).table
  serve-Consistent es w h k =
      IsHistory-Consistent w.table (serve n ns c env decodes_peer parses_addr es w).table
        (serve-IsHistory es w h) k
