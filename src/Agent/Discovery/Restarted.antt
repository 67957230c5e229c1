-- ===== src/Agent/Discovery/Restarted.antt =====
-- The start of the server (cmd/control/main.go) up to the agent's onCandidate (pkg/agent), over a document
-- store that is a map.
use mathlib.Core.List.{Mem}
use mc_prototype.Base.{
  ℕ, ◌+◌, ◌≤◌, ◌<◌, ◌≡◌, ◌≢◌, ap, subst, String, List, Option, none, some, Bool, true,
}
use mc_prototype.Dht.Network.{Network, Codec}
use mc_prototype.Dht.Json.{Node}
use mc_prototype.Dht.Json.Medium.{IsMap}
use mc_prototype.Dht.Json.Documents.{read_doc}
use mc_prototype.Task.Types.{Provider, no_manifest}
use mc_prototype.Task.Keys.{task_index_shard_count}
use mc_prototype.Lease.Types.{is_queued}
use mc_prototype.Lease.Table.{Table, Row, find_row}
use mc_prototype.Lease.Store.{Turn, at}
use mc_prototype.Control.World.{Codecs, AreFaithful, World}
use mc_prototype.Control.Requests.{Env}
use mc_prototype.Control.Announce.{is_due, process, announce_ttl}
use mc_prototype.Control.Announce.Rounds.{known_providers, providers_at}
use mc_prototype.Control.Index.Laws.{IsReadable}
use mc_prototype.Control.Loops.{restore_jobs}
use mc_prototype.Control.Loops.Restored.{
  restore_jobs-Waiting, restore_jobs-manifest, last-restore_jobs,
}
use mc_prototype.Control.Main.{new_manager, new_pg_store, Flags, serving, control_main}
use mc_prototype.Control.Main.Starting.{control_main-serving}
use mc_prototype.Agent.Discovery.{ManifestAd, discover_tick}
use mc_prototype.Agent.Discovery.Announced.{ReadsMirrors}
use mc_prototype.Agent.Discovery.Ticks.{Agrees}
use mc_prototype.Agent.Discovery.Created.{offer_of, waiting_discovered}

module _ (n : Network) (ns : String) (c : Codecs n.Bytes) (env : Env)
    (holds : Node n → String → Option n.Bytes) (m : IsMap n ns holds)
    (f : AreFaithful n.tombstone c) (mirrors : Codec n.Bytes ManifestAd)
    (r : ReadsMirrors c mirrors) where
  -- The server as its goroutines start, where no job is created by flag.
  abbrev pub restarted : ℕ → (String → ℕ) → (String → ℕ) → Table → Node n → World n
  restarted s made shards table node =
      restore_jobs n ns c (at s) made shards
        (record { table = table; node = node; manager = new_manager })

  -- Over a DHT that is a map: main with a database and a node, and without -create, starts with every
  -- queued job of the table restored. After the first round of announcements an agent that sees the same
  -- documents, has not handed such a job on before, and looks at it at most 30 seconds after the
  -- announcement, hands it to onCandidate, with the server's URL and the usable ones of the providers of
  -- its manifest document, if that has a root; where json reads the shard that the job is put into.
  pub restarted_job_discovered :
      (opens pings : String → Bool) (dsn : String) (node : Node n) (table : Table) (s : ℕ)
      (made shards : String → ℕ) (turns : String → Turn) (created : String → ℕ) (flags : Flags)
      (id : String) (row : Row) (t : ℕ) (clock now later : String → ℕ) (nd : Node n)
      (seen : String → Option ℕ)
      → dsn ≢ ""
      → new_pg_store opens pings dsn ≡ true
      → flags.create ≡ ""
      → id ≢ ""
      → find_row id table ≡ some row
      → is_queued row.status ≡ true
      → shards id < task_index_shard_count
      → IsReadable n ns c holds m f (shards id) node
      → let w = restarted s made shards table node in
        Agrees n ns holds m nd (process n ns c env t clock w).node
        → seen id ≡ none
        → now id ≤ clock id + announce_ttl
        → (control_main n ns c opens pings dsn
              (some node)
              table
              (at s, made, shards)
              turns
              created
              flags
            ≡ serving w)
          × Mem
              (offer_of env id (providers_at n ns c env holds m f id node))
              (discover_tick n ns c.state c.ad mirrors c.index now later seen nd).2
  unfolding is_due new_manager
  restarted_job_discovered opens pings dsn node table s made shards turns created flags id row t
        clock now later nd seen d o fl e h q lt legible agrees unseen early =
      (
        control_main-serving n ns c opens pings dsn node table (at s) made shards turns created
            flags d o fl,
        subst
            (λ (l : List Provider).
              Mem (offer_of env id l)
                (discover_tick n ns c.state c.ad mirrors c.index now later seen nd).2)
            same
            (waiting_discovered n ns c env holds m f mirrors r id (shards id) t clock now later w nd
              seen e lt
              (restore_jobs-Waiting n ns c holds m f made shards s fresh id row h q legible) due
              agrees unseen early),
      )
    where
      fresh : World n
      fresh = record { table = table; node = node; manager = new_manager }

      w : World n
      w = restarted s made shards table node

      due : is_due t w.manager id ≡ true
      due =
          ap (λ (last : String → ℕ). is_due t (record fresh.manager { last = last }) id)
            (last-restore_jobs n ns c holds m f made shards s fresh)

      same : providers_at n ns c env holds m f id w.node ≡ providers_at n ns c env holds m f id node
      same =
          ap (λ (o' : Option n.Bytes). known_providers (read_doc c.manifest no_manifest o'))
            (restore_jobs-manifest n ns c holds m f made shards s fresh id)
