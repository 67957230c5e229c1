-- ===== src/Control/Main/Starting.antt =====
-- How main of cmd/control/main.go starts the server.
use mc_prototype.Base.{ℕ, ◌≡◌, ◌≢◌, refl, ap, String, some, Bool, true, str_ne, str_eq}
use mc_prototype.Dht.Network.{Network}
use mc_prototype.Dht.Json.{Node}
use mc_prototype.Lease.Table.{Table}
use mc_prototype.Lease.Store.{Turn}
use mc_prototype.Control.World.{Codecs}
use mc_prototype.Control.Loops.{restore_jobs}
use mc_prototype.Control.Main.{new_manager, new_pg_store, Flags, serving, started, control_main}

pub control_main-serving :
    (n : Network) (ns : String) (c : Codecs n.Bytes) (opens pings : String → Bool) (dsn : String)
    (node : Node n) (table : Table) (list : Turn) (made shards : String → ℕ) (turns : String → Turn)
    (created : String → ℕ) (flags : Flags)
    → dsn ≢ ""
    → new_pg_store opens pings dsn ≡ true
    → flags.create ≡ ""
    → control_main n ns c opens pings dsn (some node) table (list, made, shards) turns created flags
      ≡ serving (
          restore_jobs n ns c list made shards
            (record { table = table; node = node; manager = new_manager }))
unfolding control_main started
control_main-serving n ns c opens pings dsn node table list made shards turns created flags d o fl =
    rw (str_ne dsn "" d, o, ap (λ (s : String). str_eq s "") fl) refl
