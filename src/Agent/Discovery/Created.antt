-- ===== src/Agent/Discovery/Created.antt =====
-- A job from the request that creates it, over the server's announcement, to the agent's onCandidate
-- (cmd/control, pkg/agent), over a document store that is a map.
use mathlib.Core.List.{Mem}
use mc_prototype.Base.{
  subst, ℕ, ◌+◌, ◌≤◌, ◌<◌, ◌≡◌, ◌≢◌, refl, ap, ◌∙◌, sym, String, List, Option, none, some, true,
}
use mc_prototype.Dht.Network.{Network, Codec}
use mc_prototype.Dht.Json.{Node}
use mc_prototype.Dht.Json.Medium.{IsMap}
use mc_prototype.Dht.Json.Documents.{read_doc}
use mc_prototype.Task.Types.{no_state, no_manifest, no_index, Provider}
use mc_prototype.Task.Keys.{key_state, key_manifest, key_index_shard, task_index_shard_count}
use mc_prototype.Task.Keys.Distinct.{state_ne_manifest, meta_ne_manifest, index_ne_manifest}
use mc_prototype.Lease.Table.{insert_row}
use mc_prototype.Lease.Update.{new_row}
use mc_prototype.Lease.Store.{at}
use mc_prototype.Control.World.{Codecs, AreFaithful, World, Response}
use mc_prototype.Control.Requests.{Env, Request}
use mc_prototype.Control.Announce.{mem, is_due, enqueue, process, announce_ttl, demand_url}
use mc_prototype.Control.Announce.Laws.{mem-enqueue}
use mc_prototype.Control.Announce.Rounds.{
  known_providers, providers_at, state-Apart, index-Apart, agreeing-Advertised, process-Advertised,
  holds-process, Advertised,
}
use mc_prototype.Control.Jobs.{CreateTaskReq, db_job, create_task_handler, new_state}
use mc_prototype.Control.Index.Laws.{IsReadable}
use mc_prototype.Control.Jobs.Waiting.{Waiting}
use mc_prototype.Control.Jobs.Laws.{
  Published, Accepted, Accepted-runs, published, published-Published, published-Listed,
  holds-published,
}
use mc_prototype.Agent.Discovery.{
  Candidate, ManifestAd, handle_job, filter_providers, list_from_index, discover_tick,
}
use mc_prototype.Agent.Discovery.Listing.{list_from_index_lists}
use mc_prototype.Agent.Discovery.Announced.{ReadsMirrors, Advertised-handle_job}
use mc_prototype.Agent.Discovery.Ticks.{Agrees, discover_tick-Mem}

-- What an agent is told of a job.
abbrev pub offer_of : Env → String → List Provider → Candidate
offer_of env id providers = record {
  job_id = id;
  providers = filter_providers providers;
  demand_url = demand_url env;
}

module _ (n : Network) (ns : String) (c : Codecs n.Bytes) (env : Env)
    (holds : Node n → String → Option n.Bytes) (m : IsMap n ns holds)
    (f : AreFaithful n.tombstone c) (mirrors : Codec n.Bytes ManifestAd)
    (r : ReadsMirrors c mirrors) (id : String) where
  -- A job that waits is handed on by an agent's tick after the announcement.
  pub waiting_discovered :
      (shard t : ℕ) (clock now later : String → ℕ) (w : World n) (nd : Node n)
      (seen : String → Option ℕ)
      → id ≢ ""
      → shard < task_index_shard_count
      → Waiting n ns c holds m f id shard w
      → is_due t w.manager id ≡ true
      → Agrees n ns holds m nd (process n ns c env t clock w).node
      → seen id ≡ none
      → now id ≤ clock id + announce_ttl
      → Mem
          (offer_of env id (providers_at n ns c env holds m f id w.node))
          (discover_tick n ns c.state c.ad mirrors c.index now later seen nd).2
  waiting_discovered shard t clock now later w nd seen e lt a ready agrees unseen early =
      discover_tick-Mem n ns holds m c.state c.ad mirrors now later id cand nd offered c.index seen
        lists unseen
    where
      w' : World n
      w' = process n ns c env t clock w

      cand : Candidate
      cand = offer_of env id (providers_at n ns c env holds m f id w.node)

      advertised :
          Advertised n ns c env holds m f id
            (clock id + announce_ttl)
            (providers_at n ns c env holds m f id w.node)
            w'.node
      advertised = process-Advertised n ns c env holds m f id t clock w a.enqueued ready

      offered :
          (nd' : Node n)
          → Agrees n ns holds m nd' nd
          → (handle_job n ns c.state c.ad mirrors (now id) none id nd').1 ≡ some cand
      offered nd' same =
          Advertised-handle_job n ns c env holds m f mirrors r id (now id) (clock id + announce_ttl)
            (providers_at n ns c env holds m f id w.node) nd' a.state e
            (ap (read_doc c.state no_state) (
                same (key_state id)
                ∙ agrees (key_state id)
                ∙ holds-process n ns c env holds m f id t clock w (key_state id)
                    (state-Apart n ns c env holds m f id))
              ∙ a.stored)
            a.queued
            (agreeing-Advertised n ns c env holds m f id (clock id + announce_ttl)
              (providers_at n ns c env holds m f id w.node) w'.node nd' (λ j. same j ∙ agrees j)
              advertised)
            early

      lists : mem id (list_from_index n ns c.index nd).1 ≡ true
      lists =
          list_from_index_lists n ns c.index holds m shard id a.listed.index nd lt
            (ap (read_doc c.index no_index) (
                agrees (key_index_shard ns shard)
                ∙ holds-process n ns c env holds m f id t clock w (key_index_shard ns shard)
                    (index-Apart n ns c env holds m f id shard))
              ∙ a.listed.there)
            a.listed.has

-- Over a DHT that is a map, where json reads the chosen shard of the index: when an accepted request
-- creates a job whose id has no announcement within the interval, and the loop announces, then an agent
-- that sees the same documents, has not handed the job on before, and looks at it at most 30 seconds
-- after the announcement, hands it to onCandidate in the same tick, with the server's URL and with the
-- usable ones of the providers that its manifest document, if it has a root, had when it was created.
pub created_job_discovered :
    (n : Network) (ns : String) (c : Codecs n.Bytes) (env : Env)
    (holds : Node n → String → Option n.Bytes) (m : IsMap n ns holds)
    (f : AreFaithful n.tombstone c) (mirrors : Codec n.Bytes ManifestAd)
    (r : ReadsMirrors c mirrors) (s made shard indexed : ℕ) (q : CreateTaskReq)
    (request : Request CreateTaskReq) (w : World n) (t : ℕ) (clock now later : String → ℕ)
    (nd : Node n) (seen : String → Option ℕ)
    → Accepted env request q
    → shard < task_index_shard_count
    → IsReadable n ns c holds m f shard w.node
    → is_due t w.manager q.id ≡ true
    → let w' = (create_task_handler n ns c env (at s) made shard indexed request w).0 in
      Agrees n ns holds m nd (process n ns c env t clock w').node
      → seen q.id ≡ none
      → now q.id ≤ clock q.id + announce_ttl
      → Mem
          (offer_of env q.id (providers_at n ns c env holds m f q.id w.node))
          (discover_tick n ns c.state c.ad mirrors c.index now later seen nd).2
unfolding is_due enqueue new_state
created_job_discovered n ns c env holds m f mirrors r s made shard indexed q request w t clock now
      later nd seen a lt legible ready agrees unseen early =
    subst
      (λ (x : World n).
        Agrees n ns holds m nd (process n ns c env t clock x).node
        → Mem (offer_of env q.id (providers_at n ns c env holds m f q.id w.node))
            (discover_tick n ns c.state c.ad mirrors c.index now later seen nd).2)
      (sym (
        ap (λ (x : World n × Response). x.0)
          (Accepted-runs n ns c holds m f env s made shard indexed request q w a)))
      discovered agrees
  where
    node : Node n
    node = published n ns c holds m f made shard indexed q w.node

    w' : World n
    w' = record {
      table = insert_row (new_row (db_job made q)) w.table;
      node = node;
      manager = enqueue q.id w.manager;
    }

    documents : Published n ns c holds m f made shard indexed q w.node
    documents = published-Published n ns c holds m f made shard indexed q w.node

    waiting : Waiting n ns c holds m f q.id shard w'
    waiting = record {
      state = new_state q.id made;
      stored = documents.state;
      queued = refl;
      listed = published-Listed n ns c holds m f made shard indexed q w.node legible;
      enqueued = mem-enqueue q.id w.manager;
    }

    same :
        providers_at n ns c env holds m f q.id node ≡ providers_at n ns c env holds m f q.id w.node
    same =
        ap (λ (o : Option n.Bytes). known_providers (read_doc c.manifest no_manifest o))
          (holds-published n ns c holds m f made shard indexed q w.node (key_manifest q.id)
            (meta_ne_manifest ns q.id) (state_ne_manifest ns q.id)
            (index_ne_manifest ns q.id shard))

    discovered :
        Agrees n ns holds m nd (process n ns c env t clock w').node
        → Mem
            (offer_of env q.id (providers_at n ns c env holds m f q.id w.node))
            (discover_tick n ns c.state c.ad mirrors c.index now later seen nd).2
    discovered there =
        subst
          (λ (l : List Provider).
            Mem (offer_of env q.id l)
              (discover_tick n ns c.state c.ad mirrors c.index now later seen nd).2)
          same
          (waiting_discovered n ns c env holds m f mirrors r q.id shard t clock now later w' nd seen
            a.named lt waiting ready there unseen early)
