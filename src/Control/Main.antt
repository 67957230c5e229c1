-- ===== src/Control/Main.antt =====
-- The start and the goroutines of cmd/control/main.go: NewAnnounceManager, the select loops of
-- AnnounceManager.Run, requeueLoop and reannounceQueuedLoop, snapshotLoop and main.
pub mod Wakes
pub mod Starting
use mc_prototype.Base.{
  ℕ, String, List, [], ◌∷◌, Option, none, some, Bool, true, false, not, ◌&&◌, ◌||◌, str_eq, filter,
  map, if◌then◌else◌,
}
use mc_prototype.Dht.Network.{Network}
use mc_prototype.Dht.Json.{Node}
use mc_prototype.Lease.Types.{JobStatus, succeeded, failed, DbJob, Result, ok, err}
use mc_prototype.Lease.Table.{Table}
use mc_prototype.Lease.Store.{Turn}
use mc_prototype.Lease.Queries.{list_all}
use mc_prototype.Control.World.{Codecs, Manager, World}
use mc_prototype.Control.Requests.{Env}
use mc_prototype.Control.Announce.{enqueue, process}
use mc_prototype.Control.Loops.{requeue_tick, restore_jobs, reannounce_tick}
use mc_prototype.Control.Create.{create_flagged}

-- NewAnnounceManager; its lifetimes are Announce.announce_ttl and Announce.announce_interval.
unfoldable pub new_manager : Manager
new_manager = record { dirty = []; last = λ id. 0; trigger = false }

-- What the loop of Run meets next: the end of its context, a tick, the trigger, or an Enqueue by another
-- goroutine in between. A round comes with its readings of the clock.
pub data Wake : Type 0 where
  done : Wake
  tick : ℕ → (String → ℕ) → Wake
  triggered : ℕ → (String → ℕ) → Wake
  enqueues : String → Wake

module _ (n : Network) (ns : String) (c : Codecs n.Bytes) (env : Env) where
  abbrev received : World n → World n
  received w = let m = w.manager in record w { manager = record m { trigger = false } }

  -- The channel `trigger` is received from only where something was sent.
  unfoldable pub on_wake : Wake → World n → World n
  on_wake done w = w
  on_wake (tick now clock) w = process n ns c env now clock w
  on_wake (triggered now clock) w =
      if w.manager.trigger then process n ns c env now clock (received w) else w
  on_wake (enqueues id) w = record w { manager = enqueue id w.manager }

  -- AnnounceManager.Run.
  unfoldable pub run_manager : List Wake → World n → World n
  unfolding on_wake
  run_manager [] w = w
  run_manager (done ∷ wakes) w = w
  run_manager (wake ∷ wakes) w = run_manager wakes (on_wake wake w)

-- A loop that ends with its context, `none`, and works at each tick.
abbrev pub until_done : {T S : Type 0} → (T → S → S) → List (Option T) → S → S
until_done body [] s = s
until_done body (none ∷ ticks) s = s
until_done body (some t ∷ ticks) s = until_done body ticks (body t s)

pub record RequeueTick : Type 0 where
  pub list : Turn
  pub turns : String → Turn
  pub now : ℕ

unfoldable pub requeue_loop :
    (n : Network) → String → Codecs n.Bytes → List (Option RequeueTick) → World n → World n
requeue_loop n ns c = until_done (λ t w. requeue_tick n ns c t.list t.turns t.now w)

unfoldable pub reannounce_loop : {n : Network} → List (Option Turn) → World n → World n
reannounce_loop = until_done reannounce_tick

is_over : JobStatus → Bool
is_over succeeded = true
is_over failed = true
is_over _ = false

snapshot_lines : Result (List DbJob) → List (String × JobStatus)
unfolding is_over
snapshot_lines (err e) = []
snapshot_lines (ok jobs) = map (λ j. (j.id, j.status)) (filter (λ j. is_over j.status) jobs)

-- The jobs and statuses that one tick of snapshotLoop logs.
unfoldable pub snapshot_tick : Turn → Table → List (String × JobStatus)
unfolding snapshot_lines
snapshot_tick turn t = snapshot_lines (list_all turn t)

-- NewPGStore: sql.Open, and a ping.
unfoldable pub new_pg_store : (opens pings : String → Bool) → String → Bool
new_pg_store opens pings dsn = opens dsn && pings dsn

pub record Flags : Type 0 where
  pub create : String
  pub image : String
  pub cmd : String

-- The ends of main by log.Fatal, and a server that has started.
pub data Start (n : Network) : Type 0 where
  no_dsn no_store no_node : Start n
  serving : World n → Start n

module _ (n : Network) (ns : String) (c : Codecs n.Bytes) where
  -- The goroutines that main starts begin with this state.
  started :
      (Turn × (String → ℕ) × (String → ℕ))
      → (String → Turn)
      → (String → ℕ)
      → Flags
      → World n
      → World n
  started (list, clock, shards) turns created flags w =
      let w' = restore_jobs n ns c list clock shards w in
      if str_eq flags.create ""
      then w'
      else create_flagged n ns c turns created flags.create flags.image flags.cmd w'

  -- `node` is what NewNode returns, and `table` what is in the database.
  unfoldable pub control_main :
      (opens pings : String → Bool)
      → String
      → Option (Node n)
      → Table
      → (Turn × (String → ℕ) × (String → ℕ))
      → (String → Turn)
      → (String → ℕ)
      → Flags
      → Start n
  unfolding started new_pg_store new_manager
  control_main opens pings dsn node table restore turns created flags =
      if str_eq dsn ""
      then no_dsn
      else if not (new_pg_store opens pings dsn)
      then no_store
      else elim node [
        | none ↦ no_node
        | some nd ↦ serving (
            started restore turns created flags
              (record { table = table; node = nd; manager = new_manager }))
      ]
