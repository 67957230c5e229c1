-- ===== src/Control/Finishes/Laws.antt =====
-- What finishHandler does to the job table and to the DHT, over a document store that is a map.
use mc_prototype.Base.{
  str_eq, eq_iff, none, ℕ, ◌≡◌, refl, ap, sym, ◌∙◌, String, [], ◌∷◌, Option, some, Bool, true,
  arith, eq_iff, eq_refl,
}
use mc_prototype.Dht.Network.{Network}
use mc_prototype.Dht.Json.{Node, put_json, get_json, del_json}
use mc_prototype.Dht.Json.Medium.{IsMap}
use mc_prototype.Dht.Json.Documents.{read_doc, get_json_value, put_json_doc, del_json_doc}
use mc_prototype.Task.Types.{TaskState, no_state, no_lease}
use mc_prototype.Task.Keys.{key_state, key_lease, key_task_ad, key_p2p_manifest_mirror}
use mc_prototype.Task.Keys.Laws.{
  lease_ne_state, ad_ne_state, mirror_ne_state, ad_ne_lease, mirror_ne_lease, mirror_ne_ad,
}
use mc_prototype.Lease.Types as Lease
use mc_prototype.Task.Types as Task
use mc_prototype.Base.{suc64, if◌then◌else◌}
use mc_prototype.Text.{lower_is}
use mc_prototype.Base.{false}
use mc_prototype.Lease.Table.{Row, find_row, hits}
use mc_prototype.Lease.Update.{finish_guard, finish_change}
use mc_prototype.Lease.Store.{Turn, at}
use mc_prototype.Lease.Store.Writes.{finish_runs, finish_miss}
use mc_prototype.Lease.History.{finishes, exec, find_row-exec, effect}
use mc_prototype.Control.World.{Codecs, AreFaithful, World, empty, reply, no_ad, no_mirror}
use mc_prototype.Control.Requests.{
  Env, Request, require_auth, path_parts, three_parts, header_token,
}
use mc_prototype.Control.Finishes.{
  text, FinishIn, outcome_of, finish_state, finish_mirror, on_finish, finish_body, finish_handler,
}

-- A request that gets past the handler's checks.
pub record Accepted (env : Env) (r : Request FinishIn) (id : String) (i : FinishIn) : Type 0 where
  pub auth : require_auth env r ≡ true
  pub post : r.method ≡ "POST"
  pub parts : path_parts r ≡ "jobs" ∷ id ∷ "finish" ∷ []
  pub decoded : r.body ≡ some i

module _ (n : Network) (ns : String) (c : Codecs n.Bytes) where
  -- What is left of the handler behind its checks, when the database answers.
  Accepted-runs :
      (env : Env) (s now : ℕ) (r : Request FinishIn) (id : String) (i : FinishIn) (w : World n)
      → Accepted env r id i
      → finish_handler n ns c env (at s) now r w ≡ (
        record w {
          table =
              exec s
                (finishes id r.agent_header (header_token r.token_header) (outcome_of i))
                w.table;
          node = finish_mirror n ns c id (outcome_of i).succeeded now w.node;
        },
        reply 204 empty,
      )
  unfolding finish_handler finish_body on_finish
  Accepted-runs env s now r id i w a = ground (
    arith,
    a.auth,
    a.post,
    eq_iff r.method "POST",
    ap (three_parts "jobs" "finish") a.parts,
    a.decoded,
    finish_runs s id r.agent_header (header_token r.token_header) (outcome_of i) w.table,
  )

module _ (n : Network) (ns : String) (c : Codecs n.Bytes) (holds : Node n → String → Option n.Bytes)
    (m : IsMap n ns holds) (f : AreFaithful n.tombstone c) where
  -- The mirror of a finished job: the final state, and no lease, ad or manifest mirror.
  pub record Closed (id : String) (done : Bool) (now : ℕ) (nd nd' : Node n) : Type 0 where
    pub state :
        let st = (read_doc c.state no_state (holds nd (key_state id))).0 in
        read_doc c.state no_state (holds nd' (key_state id)) ≡ (
          record st {
            status = if done then Task.succeeded else Task.failed;
            updated_at = now;
            finished_at = some now;
            version = suc64 st.version;
          },
          true,
        )
    pub lease : (read_doc c.lease no_lease (holds nd' (key_lease id))).0 ≡ no_lease
    pub ad : (read_doc c.ad no_ad (holds nd' (key_task_ad ns id))).0 ≡ no_ad
    pub mirror :
        (read_doc c.mirror no_mirror (holds nd' (key_p2p_manifest_mirror id))).0 ≡ no_mirror

  pub finish_mirror-Closed :
      (id : String) (done : Bool) (now : ℕ) (nd : Node n)
      → Closed id done now nd (finish_mirror n ns c id done now nd)
  unfolding finish_mirror finish_state
  finish_mirror-Closed id done now nd = record {
    state =
        ap (read_doc c.state no_state) kept
        ∙ put.1
        ∙ ap (λ (st : TaskState). (finish_state done now st, true)) value
        ∙ verdict done (read_doc c.state no_state (holds nd (key_state id))).0;
    lease =
        ap (λ (o : Option n.Bytes). (read_doc c.lease no_lease o).0)
          (m.holds_del nd4 (key_p2p_manifest_mirror id) (key_lease id) (mirror_ne_lease ns id)
            ∙ m.holds_del nd3 (key_task_ad ns id) (key_lease id) (ad_ne_lease ns id))
        ∙ del_json_doc n ns holds m c.lease nd2 (key_lease id) no_lease f.lease;
    ad =
        ap (λ (o : Option n.Bytes). (read_doc c.ad no_ad o).0)
          (m.holds_del nd4 (key_p2p_manifest_mirror id) (key_task_ad ns id) (mirror_ne_ad ns id))
        ∙ del_json_doc n ns holds m c.ad nd3 (key_task_ad ns id) no_ad f.ad;
    mirror = del_json_doc n ns holds m c.mirror nd4 (key_p2p_manifest_mirror id) no_mirror f.mirror;
  }
    where
      read : Node n × TaskState × Bool
      read = get_json n ns c.state nd (key_state id) no_state

      nd2 : Node n
      nd2 = (put_json n ns c.state read.0 (key_state id) (finish_state done now read.1)).0

      nd3 : Node n
      nd3 = (del_json n ns nd2 (key_lease id)).0

      nd4 : Node n
      nd4 = (del_json n ns nd3 (key_task_ad ns id)).0

      verdict :
          (d : Bool) (st : TaskState)
          → ◌≡◌ {A = TaskState × Bool}
              (finish_state d now st, true)
              (
                record st {
                  status = if d then Task.succeeded else Task.failed;
                  updated_at = now;
                  finished_at = some now;
                  version = suc64 st.version;
                },
                true,
              )
      verdict true st = refl
      verdict false st = refl

      value : read.1 ≡ (read_doc c.state no_state (holds nd (key_state id))).0
      value = get_json_value n ns holds m c.state nd (key_state id) no_state

      put :
          ((put_json n ns c.state read.0 (key_state id) (finish_state done now read.1)).1 ≡ true)
          × (read_doc c.state no_state (holds nd2 (key_state id))
              ≡ (finish_state done now read.1, true))
      put =
          put_json_doc n ns holds m c.state read.0 (key_state id) no_state
            (finish_state done now read.1) f.state

      kept :
          holds (del_json n ns nd4 (key_p2p_manifest_mirror id)).0 (key_state id)
          ≡ holds nd2 (key_state id)
      kept =
          m.holds_del nd4 (key_p2p_manifest_mirror id) (key_state id) (mirror_ne_state ns id)
          ∙ m.holds_del nd3 (key_task_ad ns id) (key_state id) (ad_ne_state ns id)
          ∙ m.holds_del nd2 (key_lease id) (key_state id) (lease_ne_state ns id)

  -- Over a DHT that is a map: an accepted request to finish that the table's guard admits, such as
  -- the holder's, is answered with 204, where the database answers; the row is succeeded or failed as
  -- the request says, has the request's results and no lease, and keeps its token. The mirror's state is
  -- succeeded or failed likewise, and the mirror has no lease, ad or manifest mirror of the job.
  pub finish_completes :
      (env : Env) (s now : ℕ) (r : Request FinishIn) (id : String) (i : FinishIn) (w : World n)
      (row : Row)
      → Accepted env r id i
      → find_row id w.table ≡ some row
      → finish_guard r.agent_header (header_token r.token_header) row ≡ true
      → let (w', response) = finish_handler n ns c env (at s) now r w in
        (response ≡ reply 204 empty)
        × (find_row id w'.table
            ≡ some (record row {
              status = if lower_is i.status "succeeded" then Lease.succeeded else Lease.failed;
              result_root_cid = some i.result_cid;
              artifacts = i.artifacts;
              metrics = i.metrics;
              lease_agent = none;
              lease_expires_at = none;
            }))
        × Closed id (lower_is i.status "succeeded") now w.node w'.node
  unfolding effect finish_change
  finish_completes env s now r id i w row a h g = rw (Accepted-runs n ns c env s now r id i w a) (
    refl,
    find_row-exec s (finishes id r.agent_header (header_token r.token_header) (outcome_of i)) id
          w.table h
        ∙ rw (eq_refl id, g) (ground arith),
    finish_mirror-Closed id (outcome_of i).succeeded now w.node,
  )

  -- Over a DHT that is a map: an accepted request to finish that the table refuses, be it stale or from
  -- another agent, is answered with 204 as well, where the database answers. The table stays as it was,
  -- but the mirror's state is succeeded or failed as the request says, and the mirror has no lease, ad
  -- or manifest mirror of the job.
  pub refused_finish_closes_mirror :
      (env : Env) (s now : ℕ) (r : Request FinishIn) (id : String) (i : FinishIn) (w : World n)
      → Accepted env r id i
      → hits (finish_guard r.agent_header (header_token r.token_header)) (find_row id w.table) ≡ 0
      → let (w', response) = finish_handler n ns c env (at s) now r w in
        (response ≡ reply 204 empty)
        × (w'.table ≡ w.table)
        × Closed id (lower_is i.status "succeeded") now w.node w'.node
  refused_finish_closes_mirror env s now r id i w a h =
      rw (Accepted-runs n ns c env s now r id i w a)
        (refl, unchanged, finish_mirror-Closed id (outcome_of i).succeeded now w.node)
    where
      unchanged :
          exec s (finishes id r.agent_header (header_token r.token_header) (outcome_of i)) w.table
          ≡ w.table
      unchanged =
          ap (λ p. p.0)
            (sym (
                finish_runs s id r.agent_header (header_token r.token_header) (outcome_of i)
                  w.table)
              ∙ finish_miss s id r.agent_header (header_token r.token_header) (outcome_of i) w.table
                  h)

-- A finish whose path is not /jobs/{id}/finish.
pub finish_handler_bad_path :
    (n : Network) (ns : String) (c : Codecs n.Bytes) (env : Env) (turn : Turn) (now : ℕ)
    (r : Request FinishIn) (w : World n)
    → require_auth env r ≡ true
    → r.method ≡ "POST"
    → three_parts "jobs" "finish" (path_parts r) ≡ none
    → finish_handler n ns c env turn now r w ≡ (w, reply 400 (text "bad path"))
unfolding finish_handler finish_body
finish_handler_bad_path n ns c env turn now r w auth post path =
    let method : str_eq r.method "POST" ≡ true = (eq_iff r.method "POST").1 post in
    rw (auth, method, path) (no_id r.body)
  where
    no_id :
        (body : Option FinishIn)
        → finish_body n ns c turn now w r.agent_header r.token_header body none
          ≡ (w, reply 400 (text "bad path"))
    no_id none = refl
    no_id (some i) = refl
