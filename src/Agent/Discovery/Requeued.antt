-- ===== src/Agent/Discovery/Requeued.antt =====
-- A job whose holder was lost, from requeueLoop (cmd/control/main.go) up to another agent's claim
-- (pkg/agent, internal/lease), over a document store that is a map.
use mathlib.Core.List.{Mem}
use mc_prototype.Base.{
  ℕ, ◌+◌, ◌≤◌, ◌<◌, ◌≡◌, ◌≢◌, refl, ap, subst, ◌∙◌, String, List, Option, none, some, true, arith,
}
use mc_prototype.Dht.Network.{Network, Codec}
use mc_prototype.Dht.Json.{Node}
use mc_prototype.Dht.Json.Medium.{IsMap}
use mc_prototype.Dht.Json.Documents.{read_doc}
use mc_prototype.Task.Types.{Provider, no_manifest}
use mc_prototype.Task.Keys.{task_index_shard_count}
use mc_prototype.Base.{◌*◌}
use mc_prototype.Lease.Types.{queued, second}
use mc_prototype.Lease.Types.{is_active, ok}
use mc_prototype.Lease.Table.{Row, find_row}
use mc_prototype.Lease.Update.{after_seconds, claim_guard, requeue_guard, requeue_change}
use mc_prototype.Lease.Store.{at, try_claim}
use mc_prototype.Lease.Store.Refusals.{alone}
use mc_prototype.Lease.Store.Claims.{try_claim_free}
use mc_prototype.Lease.History.{claims, exec}
use mc_prototype.Control.World.{Codecs, AreFaithful, World}
use mc_prototype.Control.Requests.{Env}
use mc_prototype.Control.Announce.{is_due, process, announce_ttl}
use mc_prototype.Control.Announce.Rounds.{known_providers, providers_at}
use mc_prototype.Control.Announce.Statements.{process_table}
use mc_prototype.Control.Index.Laws.{Listed}
use mc_prototype.Control.Loops.{requeue_tick}
use mc_prototype.Control.Loops.Recovered.{Back, requeue_tick-Back}
use mc_prototype.Control.Loops.Requeues.{manifest-requeue_tick, last-requeue_tick}
use mc_prototype.Agent.Discovery.{ManifestAd, discover_tick}
use mc_prototype.Agent.Discovery.Announced.{ReadsMirrors}
use mc_prototype.Agent.Discovery.Ticks.{Agrees}
use mc_prototype.Agent.Discovery.Created.{offer_of, waiting_discovered}

module _ (n : Network) (ns : String) (c : Codecs n.Bytes) (env : Env)
    (holds : Node n → String → Option n.Bytes) (m : IsMap n ns holds)
    (f : AreFaithful n.tombstone c) (mirrors : Codec n.Bytes ManifestAd)
    (r : ReadsMirrors c mirrors) where
  -- The server after a tick of requeueLoop and a round of announcements.
  abbrev pub recovered : ℕ → (String → ℕ) → ℕ → ℕ → (String → ℕ) → World n → World n
  recovered s instants tick t clock w =
      process n ns c env t clock (requeue_tick n ns c (at s) (λ x. at (instants x)) tick w)

  -- Over a DHT that is a map: a job that a shard lists, and whose lease has been over for at least 3
  -- seconds when requeueLoop lists the expired ones, is recovered by that tick, whatever other jobs it requeues, where its own statement
  -- runs no earlier. After a round of announcements in which the job is due, the row is queued and
  -- without a lease, counts one retry more and keeps its token; an agent that sees the same documents,
  -- has not handed the job on before, and looks at it at most 30 seconds after the announcement, hands it
  -- to onCandidate, with the server's URL and the usable ones of the providers of its manifest document,
  -- if that has a root; and any agent's claim is granted, with the next token.
  pub lost_job_recovered :
      (s : ℕ) (instants : String → ℕ) (tick : ℕ) (id : String) (row : Row) (e shard t : ℕ)
      (clock now later : String → ℕ) (w : World n) (nd : Node n) (seen : String → Option ℕ)
      (agent : String) (ttl b : ℕ)
      → id ≢ ""
      → find_row id w.table ≡ some row
      → is_active row.status ≡ true
      → row.lease_expires_at ≡ some e
      → e + 3 * second ≤ s
      → s ≤ instants id
      → shard < task_index_shard_count
      → Listed n ns c holds m f id shard w.node
      → is_due t w.manager id ≡ true
      → let w' = recovered s instants tick t clock w in
        Agrees n ns holds m nd w'.node
        → seen id ≡ none
        → now id ≤ clock id + announce_ttl
        → (find_row id w'.table
            ≡ some (record row {
              status = queued;
              lease_agent = none;
              lease_expires_at = none;
              retry_count = row.retry_count + 1;
            }))
          × Mem
              (offer_of env id (providers_at n ns c env holds m f id w.node))
              (discover_tick n ns c.state c.ad mirrors c.index now later seen nd).2
          × (try_claim (alone b) id agent ttl w'.table ≡ (
            exec b (claims id agent ttl) w'.table,
            ok (record {
              agent_id = agent;
              expire_at = after_seconds b ttl;
              fencing_token = row.lease_token + 1;
            }),
          ))
  unfolding is_due requeue_guard claim_guard requeue_change
  lost_job_recovered s instants tick id row e shard t clock now later w nd seen agent ttl b d h a x
        over after lt listed due agrees unseen early =
      (
        found,
        subst
            (λ (l : List Provider).
              Mem (offer_of env id l)
                (discover_tick n ns c.state c.ad mirrors c.index now later seen nd).2)
            same
            (waiting_discovered n ns c env holds m f mirrors r id shard t clock now later back nd
              seen d lt waits.1 due' agrees unseen early),
        try_claim_free b (alone b) id agent ttl (recovered s instants tick t clock w).table refl
            found refl,
      )
    where
      back : World n
      back = requeue_tick n ns c (at s) (λ x'. at (instants x')) tick w

      waits : Back n ns c holds m f id shard row back
      waits =
          requeue_tick-Back n ns c holds m f id shard row instants tick s w (ground arith)
            (ground arith) (h, listed)

      found : find_row id (recovered s instants tick t clock w).table ≡ some (requeue_change row)
      found = ap (find_row id) (process_table n ns c env t clock back) ∙ waits.0

      due' : is_due t back.manager id ≡ true
      due' =
          ap (λ (last : String → ℕ). is_due t (record w.manager { last = last }) id)
            (last-requeue_tick n ns c holds m f (λ x'. at (instants x')) tick s w)
          ∙ due

      same :
          providers_at n ns c env holds m f id back.node
          ≡ providers_at n ns c env holds m f id w.node
      same =
          ap (λ (o : Option n.Bytes). known_providers (read_doc c.manifest no_manifest o))
            (manifest-requeue_tick n ns c holds m f (λ x'. at (instants x')) tick s w id)
