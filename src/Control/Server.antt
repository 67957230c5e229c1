-- ===== src/Control/Server.antt =====
-- The control server as a transition system: the handlers that mountHTTP mounts and the loops that main
-- starts (cmd/control), in any order, beside other servers on the same database and DHT.
pub mod Laws
pub mod Tokens
use mathlib.Core.List.{List, [], ◌∷◌}
use mc_prototype.Base.{ℕ, String, Bool}
use mc_prototype.Dht.Network.{Network}
use mc_prototype.Task.Types.{Manifest}
use mc_prototype.Lease.Store.{Turn, ClaimTurns}
use mc_prototype.Lease.History.{Call, run}
use mc_prototype.Control.World.{Codecs, World}
use mc_prototype.Control.Requests.{Env, Request}
use mc_prototype.Control.Claims.{TryClaimIn, try_claim_handler}
use mc_prototype.Control.Heartbeats.{HeartbeatIn, heartbeat_handler}
use mc_prototype.Control.Finishes.{FinishIn, finish_handler}
use mc_prototype.Control.Releases.{
  ReleaseIn, release_handler, force_requeue_handler, debug_lease_handler,
}
use mc_prototype.Control.Jobs.{CreateTaskReq, create_task_handler, get_task_handler}
use mc_prototype.Control.Manifests.{manifest_handler}
use mc_prototype.Control.Announce.{process}
use mc_prototype.Control.Loops.{requeue_tick, restore_jobs, reannounce_tick}
use mc_prototype.Control.Create.{create_flagged}

-- What happens next, with the answers of the database and the readings of the clock.
pub data Event (n : Network) : Type 0 where
  try_claims : ClaimTurns → ℕ → Request TryClaimIn → Event n
  heartbeats : Turn → ℕ → Request HeartbeatIn → Event n
  finishes : Turn → ℕ → Request FinishIn → Event n
  releases : ℕ → Request ReleaseIn → Event n
  force_requeues : ℕ → Request (Unit {0}) → Event n
  creates_task : Turn → ℕ → ℕ → ℕ → Request CreateTaskReq → Event n
  gets_task : Turn → Request (Unit {0}) → Event n
  sets_manifest : Turn → ℕ → Request Manifest → Event n
  shows_lease : Request (Unit {0}) → Event n
  announces : ℕ → (String → ℕ) → Event n
  requeues : Turn → (String → Turn) → ℕ → Event n
  reannounces : Turn → Event n
  restores : Turn → (String → ℕ) → (String → ℕ) → Event n
  creates_flagged : (String → Turn) → (String → ℕ) → String → String → String → Event n
  -- Other servers' statements, and changes of the network.
  elsewhere : List (ℕ × Call) → Event n
  network : n.Net → Event n

module _ (n : Network) (ns : String) (c : Codecs n.Bytes) (env : Env)
    (decodes_peer parses_addr : String → Bool) where
  unfoldable pub step : Event n → World n → World n
  step (try_claims turns now r) w = (try_claim_handler n ns c env turns now r w).0
  step (heartbeats turn now r) w = (heartbeat_handler n ns c env turn now r w).0
  step (finishes turn now r) w = (finish_handler n ns c env turn now r w).0
  step (releases now r) w = (release_handler n ns c env now r w).0
  step (force_requeues now r) w = (force_requeue_handler n ns c env now r w).0
  step (creates_task turn now shard later r) w =
      (create_task_handler n ns c env turn now shard later r w).0
  step (gets_task turn r) w = (get_task_handler n ns c env turn r w).0
  step (sets_manifest turn now r) w =
      (manifest_handler n ns c decodes_peer parses_addr env turn now r w).0
  step (shows_lease r) w = (debug_lease_handler n ns c env r w).0
  step (announces now clock) w = process n ns c env now clock w
  step (requeues list turns now) w = requeue_tick n ns c list turns now w
  step (reannounces list) w = reannounce_tick list w
  step (restores list clock shards) w = restore_jobs n ns c list clock shards w
  step (creates_flagged turns clock create image cmd) w =
      create_flagged n ns c turns clock create image cmd w
  step (elsewhere calls) w = record w { table = run calls w.table }
  step (network net) w = record w { node = record w.node { net = net } }

  unfoldable pub serve : List (Event n) → World n → World n
  unfolding step
  serve [] w = w
  serve (e ∷ es) w = serve es (step e w)
