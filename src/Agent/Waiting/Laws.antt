-- ===== src/Agent/Waiting/Laws.antt =====
-- What the wait for the manifest does to the lease (cmd/agent/main.go, pkg/agent/wait_manifest.go): the
-- goroutine of heartbeats starts after it.
use mc_prototype.Base.{
  ℕ, ◌+◌, ◌≤◌, ◌<◌, ◌≡◌, refl, String, List, [], ◌∷◌, Option, none, some, arith, All,
}
use mc_prototype.Task.Types.{Manifest}
use mc_prototype.Lease.Types.{ok, err, bad_token}
use mc_prototype.Lease.Table.{Row, Table, find_row}
use mc_prototype.Lease.Update.{after_seconds, claim_change, requeue_change}
use mc_prototype.Lease.Store.{at, heartbeat, set_status_queued, try_claim}
use mc_prototype.Lease.History.{requeues, claims, exec}
use mc_prototype.Lease.Recovery.{requeue_recovers}
use mc_prototype.Lease.Store.Refusals.{alone}
use mc_prototype.Agent.Client.{Answer}
use mc_prototype.Agent.Waiting.{ready_manifest, max_wait, wait_for_manifest}
use mc_prototype.Dht.Network.{Network, Codec}
use mc_prototype.Dht.Json.{Node}
use mc_prototype.Task.Types.{TaskMeta}
use mc_prototype.Task.Types as Task
use mc_prototype.Agent.Client.{read_lease, claim_request}
use mc_prototype.Agent.Discovery.{Candidate}
use mc_prototype.Agent.Fetch.{Files}
use mc_prototype.Agent.Execution.{
  Config, Outside, Action, claimed, waited, beating, base_url, on_candidate,
}
use mc_prototype.Agent.Execution.Kept.{waits_first}

-- A wait that no poll satisfies ends without a manifest, past the deadline.
wait_past_deadline :
    (deadline : ℕ) (polls : List (Answer × ℕ)) (found : Option Manifest) (u : ℕ)
    → All (λ p. ready_manifest p.0 ≡ none) polls
    → wait_for_manifest deadline polls ≡ some (found, u)
    → deadline < u
unfolding wait_for_manifest
wait_past_deadline deadline [] found u h e = absurd (ground arith)
wait_past_deadline deadline ((a, now) ∷ polls) found u h e =
    ground (arith, h.0, e, wait_past_deadline deadline polls found u h.1)

-- The wait for a manifest outlasts the lease. Where onCandidate reads a lease from the reply to its claim,
-- it waits for a manifest at the flag's URL before it starts the heartbeats. Where no poll shows a
-- manifest with a root and providers, and the wait began no earlier than the claim, of at most 15
-- seconds, was granted, the lease is over before the wait is, and so before the first heartbeat; and
-- once the server has requeued the job, that heartbeat is refused as a bad token.
pub late_first_heartbeat :
    (n : Network) (ns : String) (manifests : Codec n.Bytes Manifest)
    (metas : Codec n.Bytes TaskMeta) (cfg : Config) (o : Outside) (cand : Candidate) (fs : Files)
    (nd : Node n) (l : Task.Lease) (s start : ℕ) (polls : List (Answer × ℕ))
    (found : Option Manifest) (u x b : ℕ) (id agent : String) (ttl : ℕ) (t : Table) (r : Row)
    → read_lease o.claim ≡ some l
    → find_row id t ≡ some (claim_change s agent ttl r)
    → ttl ≤ max_wait
    → s ≤ start
    → All (λ p. ready_manifest p.0 ≡ none) polls
    → wait_for_manifest (start + max_wait) polls ≡ some (found, u)
    → u ≤ x
    → let t' = exec x (requeues id) t in
      ((rest : List Action) × ((on_candidate n ns manifests metas cfg o cand fs nd).2
          ≡ claimed (base_url cfg cand) (claim_request cfg.token cand.job_id cfg.agent_id cfg.ttl)
            ∷ waited cfg.control_url
            ∷ beating l.version
            ∷ rest))
      × (after_seconds s ttl < u)
      × (set_status_queued (at x) id t ≡ (t', ok tt))
      × (heartbeat (at b) id agent (claim_change s agent ttl r).lease_token ttl t'
          ≡ (t', err bad_token))
unfolding claim_change requeue_change
late_first_heartbeat n ns manifests metas cfg o cand fs nd l s start polls found u x b id agent ttl
      t r reads h le after none_ready w later =
    (order, over, recovered.0, recovered.2)
  where
    order :
        (rest : List Action) × ((on_candidate n ns manifests metas cfg o cand fs nd).2
          ≡ claimed (base_url cfg cand) (claim_request cfg.token cand.job_id cfg.agent_id cfg.ttl)
            ∷ waited cfg.control_url
            ∷ beating l.version
            ∷ rest)
    order = waits_first n ns manifests metas cfg o cand fs nd l reads

    over : after_seconds s ttl < u
    over = omega (arith, wait_past_deadline (start + max_wait) polls found u none_ready w)

    recovered :
        let t' = exec x (requeues id) t in
        (set_status_queued (at x) id t ≡ (t', ok tt))
        × (find_row id t' ≡ some (requeue_change (claim_change s agent ttl r)))
        × (heartbeat (at b) id agent (claim_change s agent ttl r).lease_token ttl t'
            ≡ (t', err bad_token))
        × (try_claim (alone b) id agent ttl t' ≡ (
          exec b (claims id agent ttl) t',
          ok (record {
            agent_id = agent;
            expire_at = after_seconds b ttl;
            fencing_token = r.lease_token + 1 + 1;
          }),
        ))
    recovered =
        requeue_recovers x b (alone b) id agent agent ttl t (claim_change s agent ttl r)
          (after_seconds s ttl) h refl refl (omega (arith, over)) refl
