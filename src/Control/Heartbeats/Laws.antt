-- ===== src/Control/Heartbeats/Laws.antt =====
-- What heartbeatHandler does to the job table and to the DHT, over a document store that is a map.
use mc_prototype.Base.{
  ℕ, ◌+◌, ◌≡◌, ◌≢◌, refl, ap, ◌∙◌, String, [], ◌∷◌, Option, some, Bool, true, arith, eq_refl,
}
use mc_prototype.Dht.Network.{Network}
use mc_prototype.Dht.Json.{Node, get_json}
use mc_prototype.Dht.Json.Medium.{IsMap}
use mc_prototype.Dht.Json.Documents.{read_doc, get_json_value, put_json_doc}
use mc_prototype.Task.Types.{Lease, no_lease}
use mc_prototype.Task.Keys.{key_lease}
use mc_prototype.Lease.Types.{running}
use mc_prototype.Lease.Update.{after_seconds}
use mc_prototype.Base.{suc64}
use mc_prototype.Lease.Table.{Row, find_row, hits}
use mc_prototype.Lease.Update.{heartbeat_guard, heartbeat_change}
use mc_prototype.Lease.Store.{at}
use mc_prototype.Lease.Store.Writes.{heartbeat_hit, heartbeat_miss}
use mc_prototype.Lease.History.{beats, exec, find_row-exec, effect}
use mc_prototype.Control.World.{Codecs, AreFaithful, World, text, ok_true, reply}
use mc_prototype.Control.Requests.{
  Env, Request, require_auth, path_parts, four_parts, ttl_or_default, heartbeat_token,
}
use mc_prototype.Control.Heartbeats.{
  HeartbeatIn, renew_lease, renew_mirror, on_heartbeat, beat_job, beat_body, heartbeat_handler,
}

-- A request that gets past the handler's checks, with the fencing token that it carries.
pub record Accepted (env : Env) (r : Request HeartbeatIn) (id : String) (i : HeartbeatIn)
    (token : ℕ) : Type 0 where
  pub auth : require_auth env r ≡ true
  pub parts : path_parts r ≡ "api" ∷ "tasks" ∷ id ∷ "heartbeat" ∷ []
  pub decoded : r.body ≡ some i
  pub sent : heartbeat_token i.lease_version i.nonce r.token_header ≡ token
  pub present : token ≢ 0

-- A heartbeat that the table refuses is answered with 409, and changes nothing.
pub refused_heartbeat :
    (n : Network) (ns : String) (c : Codecs n.Bytes) (env : Env) (s now : ℕ)
    (r : Request HeartbeatIn) (id : String) (i : HeartbeatIn) (token : ℕ) (w : World n)
    → Accepted env r id i token
    → hits (heartbeat_guard i.agent_id token) (find_row id w.table) ≡ 0
    → heartbeat_handler n ns c env (at s) now r w ≡ (w, reply 409 (text "heartbeat failed"))
unfolding heartbeat_handler beat_body beat_job on_heartbeat
refused_heartbeat n ns c env s now r id i token w a h = ground (
  arith,
  a.auth,
  ap (four_parts "api" "tasks" "heartbeat") a.parts,
  a.decoded,
  a.sent,
  a.present,
  heartbeat_miss s id i.agent_id token (ttl_or_default i.ttl_sec) w.table h,
)

module _ (n : Network) (ns : String) (c : Codecs n.Bytes) (holds : Node n → String → Option n.Bytes)
    (m : IsMap n ns holds) (f : AreFaithful n.tombstone c) where
  renewed :
      (id agent : String) (expires : ℕ) (nd : Node n)
      → read_doc c.lease no_lease (holds (renew_mirror n ns c id agent expires nd) (key_lease id))
        ≡ (renew_lease agent expires (read_doc c.lease no_lease (holds nd (key_lease id))).0, true)
  unfolding renew_mirror
  renewed id agent expires nd =
      (put_json_doc n ns holds m c.lease read.0 (key_lease id) no_lease
        (renew_lease agent expires read.1) f.lease).1
      ∙ ap (λ (l : Lease). (renew_lease agent expires l, true))
          (get_json_value n ns holds m c.lease nd (key_lease id) no_lease)
    where
      read : Node n × Lease × Bool
      read = get_json n ns c.lease nd (key_lease id) no_lease

  Accepted-runs :
      (env : Env) (s now : ℕ) (r : Request HeartbeatIn) (id : String) (i : HeartbeatIn) (token : ℕ)
      (w : World n) (row : Row)
      → Accepted env r id i token
      → find_row id w.table ≡ some row
      → heartbeat_guard i.agent_id token row ≡ true
      → let ttl = ttl_or_default i.ttl_sec in
        heartbeat_handler n ns c env (at s) now r w ≡ (
          record w {
            table = exec s (beats id i.agent_id token ttl) w.table;
            node = renew_mirror n ns c id i.agent_id (now + ttl) w.node;
          },
          reply 200 ok_true,
        )
  unfolding heartbeat_handler beat_body beat_job on_heartbeat
  Accepted-runs env s now r id i token w row a h g = ground (
    arith,
    a.auth,
    ap (four_parts "api" "tasks" "heartbeat") a.parts,
    a.decoded,
    a.sent,
    a.present,
    heartbeat_hit s id i.agent_id token (ttl_or_default i.ttl_sec) w.table h g,
  )

  -- Over a DHT that is a map: an accepted heartbeat whose agent and token are the row's is answered
  -- with 200, where the database answers; the row is running under a lease that ends the asked time
  -- after the database's instant, and is otherwise as it was. The lease document of the mirror is the
  -- agent's until the asked time after the server's clock, with the version after the one it had.
  pub heartbeat_renews :
      (env : Env) (s now : ℕ) (r : Request HeartbeatIn) (id : String) (i : HeartbeatIn) (token : ℕ)
      (w : World n) (row : Row)
      → Accepted env r id i token
      → find_row id w.table ≡ some row
      → heartbeat_guard i.agent_id token row ≡ true
      → let ttl = ttl_or_default i.ttl_sec in
        let (w', response) = heartbeat_handler n ns c env (at s) now r w in
        let old = (read_doc c.lease no_lease (holds w.node (key_lease id))).0 in
        (response ≡ reply 200 ok_true)
        × (find_row id w'.table
            ≡ some (record row { lease_expires_at = some (after_seconds s ttl); status = running }))
        × (read_doc c.lease no_lease (holds w'.node (key_lease id)) ≡ (
          record {
            owner = i.agent_id;
            nonce = old.nonce;
            expires = now + ttl;
            version = suc64 old.version;
          },
          true,
        ))
  unfolding effect heartbeat_change renew_lease
  heartbeat_renews env s now r id i token w row a h g =
      let ttl = ttl_or_default i.ttl_sec in
      rw (Accepted-runs env s now r id i token w row a h g) (
        refl,
        find_row-exec s (beats id i.agent_id token ttl) id w.table h ∙ rw (eq_refl id, g) refl,
        renewed id i.agent_id (now + ttl) w.node,
      )
