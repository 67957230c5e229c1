-- ===== src/Control/Claims/Laws.antt =====
-- What tryClaimHandler does to the job table and to the DHT, over a document store that is a map.
use mc_prototype.Base.{
  ℕ, ◌≡◌, ◌≢◌, refl, ap, ◌∙◌, String, [], ◌∷◌, Option, none, some, Bool, true, false, arith, str_ne,
  ◌+◌,
}
use mc_prototype.Dht.Network.{Network}
use mc_prototype.Dht.Json.{Node, get_json}
use mc_prototype.Dht.Json.Medium.{IsMap}
use mc_prototype.Dht.Json.Documents.{read_doc, get_json_value, put_json_doc, holds_put_json}
use mc_prototype.Task.Types.{TaskState, no_state, no_lease}
use mc_prototype.Task.Keys.{key_state, key_lease}
use mc_prototype.Task.Keys.Laws.{lease_ne_state}
use mc_prototype.Lease.Types.{Lease, Result}
use mc_prototype.Lease.Types as Status
use mc_prototype.Task.Types as Types
use mc_prototype.Task.Types.{assigned}
use mc_prototype.Base.{eq_refl, int64, suc64}
use mc_prototype.Lease.Update.{claim_change}
use mc_prototype.Lease.History.{find_row-exec, effect}
use mc_prototype.Lease.Table.{Row, Table, find_row}
use mc_prototype.Lease.Update.{after_seconds, claim_guard}
use mc_prototype.Lease.Store.{at, try_claim, ClaimTurns}
use mc_prototype.Lease.Store.Claims.{try_claim_free}
use mc_prototype.Lease.Store.Refusals.{
  alone, NoManifest, HasManifest, claim_absent, claim_unready, claim_conflicts,
}
use mc_prototype.Lease.History.{claims, exec}
use mc_prototype.Control.World.{
  Codecs, AreFaithful, World, claim_refused, claimed, text, reply, panicked,
}
use mc_prototype.Control.Requests.{
  Env, Request, require_auth, path_parts, four_parts, ttl_or_default,
}
use mc_prototype.Control.Claims.{
  TryClaimIn, assign_state, lease_doc, assign_mirror, grant, on_claim, claim_job, claim_body,
  try_claim_handler,
}

-- A request that gets past the handler's checks.
pub record Accepted (env : Env) (r : Request TryClaimIn) (id : String) (i : TryClaimIn)
    : Type 0 where
  pub auth : require_auth env r ≡ true
  pub parts : path_parts r ≡ "api" ∷ "tasks" ∷ id ∷ "try-claim" ∷ []
  pub decoded : r.body ≡ some i
  pub named : i.agent_id ≢ ""

module _ (n : Network) (ns : String) (c : Codecs n.Bytes) where
  pub Accepted-runs :
      (env : Env) (turns : ClaimTurns) (now : ℕ) (r : Request TryClaimIn) (id : String)
      (i : TryClaimIn) (w : World n) (t : Table) (x : Result Lease)
      → Accepted env r id i
      → try_claim turns id i.agent_id (ttl_or_default i.ttl_sec) w.table ≡ (t, x)
      → try_claim_handler n ns c env turns now r w
        ≡ on_claim n ns c id i.agent_id now (record w { table = t }) x
  unfolding try_claim_handler claim_body claim_job
  Accepted-runs env turns now r id i w t x a h = ground (
    arith,
    a.auth,
    ap (four_parts "api" "tasks" "try-claim") a.parts,
    a.decoded,
    str_ne i.agent_id "" a.named,
    h,
  )

module _ (n : Network) (ns : String) (c : Codecs n.Bytes) (holds : Node n → String → Option n.Bytes)
    (m : IsMap n ns holds) (f : AreFaithful n.tombstone c) where
  -- The mirror's state document says that the job is assigned to the agent.
  abbrev pub Assigned : String → String → ℕ → Node n → Node n → Type 0
  Assigned id agent now nd nd' =
      let st = (read_doc c.state no_state (holds nd (key_state id))).0 in
      read_doc c.state no_state (holds nd' (key_state id)) ≡ (
        record st {
          id = id;
          status = assigned;
          assigned_to = agent;
          updated_at = now;
          started_at = elim st.started_at [ none ↦ some now | some t ↦ some t ];
          version = suc64 st.version;
        },
        true,
      )

  assign_mirror-Assigned :
      (id agent : String) (now : ℕ) (nd : Node n)
      → Assigned id agent now nd (assign_mirror n ns c id agent now nd)
  unfolding assign_mirror assign_state
  assign_mirror-Assigned id agent now nd =
      (put_json_doc n ns holds m c.state read.0 (key_state id) no_state
        (assign_state id agent now read.1) f.state).1
      ∙ ap (λ (st : TaskState). (assign_state id agent now st, true))
          (get_json_value n ns holds m c.state nd (key_state id) no_state)
    where
      read : Node n × TaskState × Bool
      read = get_json n ns c.state nd (key_state id) no_state

  -- Over a DHT that is a map: an accepted request to claim a free job, whose update the database
  -- answers, is answered with 200 and a lease: for the agent, until the asked time after the database's
  -- instant, and with the row's token plus one as its version. The row is assigned to the agent under
  -- that lease, the mirror has the same lease document, and its state says that the job is assigned to
  -- the agent.
  pub claim_grants :
      (env : Env) (turns : ClaimTurns) (s now : ℕ) (r : Request TryClaimIn) (id : String)
      (i : TryClaimIn) (w : World n) (row : Row)
      → Accepted env r id i
      → turns.update ≡ at s
      → find_row id w.table ≡ some row
      → claim_guard s row ≡ true
      → let ttl = ttl_or_default i.ttl_sec in
        let l : Types.Lease = record {
          owner = i.agent_id;
          nonce = "";
          expires = after_seconds s ttl;
          version = int64 (row.lease_token + 1);
        } in
        let (w', response) = try_claim_handler n ns c env turns now r w in
        (response ≡ reply 200 (claimed l))
        × (w'.table ≡ exec s (claims id i.agent_id ttl) w.table)
        × (find_row id w'.table
            ≡ some (record row {
              lease_agent = some i.agent_id;
              lease_expires_at = some (after_seconds s ttl);
              lease_token = row.lease_token + 1;
              status = Status.assigned;
            }))
        × (read_doc c.lease no_lease (holds w'.node (key_lease id)) ≡ (l, true))
        × Assigned id i.agent_id now w.node w'.node
  unfolding on_claim grant lease_doc effect claim_change
  claim_grants env turns s now r id i w row a u h g =
      let ttl = ttl_or_default i.ttl_sec in
      let l : Lease = record {
        agent_id = i.agent_id;
        expire_at = after_seconds s ttl;
        fencing_token = row.lease_token + 1;
      } in
      let doc = lease_doc i.agent_id l in
      let nd = assign_mirror n ns c id i.agent_id now w.node in
      rw
        (Accepted-runs n ns c env turns now r id i w _ _ a
          (try_claim_free s turns id i.agent_id ttl w.table u h g))
        (
          refl,
          refl,
          find_row-exec s (claims id i.agent_id ttl) id w.table h ∙ rw (eq_refl id, g) refl,
          (put_json_doc n ns holds m c.lease nd (key_lease id) no_lease doc f.lease).1,
          ap (read_doc c.state no_state) (
                holds_put_json n ns holds m c.lease nd (key_lease id) doc (key_state id)
                  (lease_ne_state ns id))
              ∙ assign_mirror-Assigned id i.agent_id now w.node,
        )

  -- Over a DHT that is a map: an accepted request to claim a job that cannot be claimed and that has no
  -- manifest in the table makes the handler panic, where the database answers all statements and no other
  -- session changes the job between them; before that it has written into the mirror that the job is
  -- assigned to the refused agent.
  pub claim_without_manifest_panics :
      (env : Env) (s now : ℕ) (r : Request TryClaimIn) (id : String) (i : TryClaimIn) (w : World n)
      (row : Row)
      → Accepted env r id i
      → find_row id w.table ≡ some row
      → claim_guard s row ≡ false
      → NoManifest row
      → let (w', response) = try_claim_handler n ns c env (alone s) now r w in
        (response ≡ panicked) × (w'.table ≡ w.table) × Assigned id i.agent_id now w.node w'.node
  unfolding on_claim grant
  claim_without_manifest_panics env s now r id i w row a h g missing =
      rw
        (Accepted-runs n ns c env (alone s) now r id i w _ _ a
          (claim_unready s id i.agent_id (ttl_or_default i.ttl_sec) w.table h g missing))
        (refl, refl, assign_mirror-Assigned id i.agent_id now w.node)

-- A claim of a job that cannot be claimed and has a manifest is answered with 200 and `ok: false`, and
-- changes nothing.
pub claim_conflict_refusal :
    (n : Network) (ns : String) (c : Codecs n.Bytes) (env : Env) (s now : ℕ)
    (r : Request TryClaimIn) (id : String) (i : TryClaimIn) (w : World n) (row : Row) (cid : String)
    → Accepted env r id i
    → find_row id w.table ≡ some row
    → claim_guard s row ≡ false
    → HasManifest row cid
    → try_claim_handler n ns c env (alone s) now r w ≡ (w, reply 200 claim_refused)
unfolding on_claim
claim_conflict_refusal n ns c env s now r id i w row cid a h g has =
    Accepted-runs n ns c env (alone s) now r id i w _ _ a
      (claim_conflicts s id i.agent_id (ttl_or_default i.ttl_sec) w.table h g has)

-- A claim of an unknown job is answered with 404, and changes nothing.
pub claim_unknown_refusal :
    (n : Network) (ns : String) (c : Codecs n.Bytes) (env : Env) (s now : ℕ)
    (r : Request TryClaimIn) (id : String) (i : TryClaimIn) (w : World n)
    → Accepted env r id i
    → find_row id w.table ≡ none
    → try_claim_handler n ns c env (alone s) now r w ≡ (w, reply 404 (text "not found"))
unfolding on_claim
claim_unknown_refusal n ns c env s now r id i w a h =
    Accepted-runs n ns c env (alone s) now r id i w _ _ a
      (claim_absent s id i.agent_id (ttl_or_default i.ttl_sec) w.table h)
