-- ===== src/Control/Heartbeats.antt =====
-- heartbeatHandler of cmd/control/control_http.go.
pub mod Laws
pub mod Statements
use mc_prototype.Base.{ℕ, ◌+◌, String, Option, none, some, not, ◌==◌, ℤ, suc64, if◌then◌else◌}
use mc_prototype.Dht.Network.{Network}
use mc_prototype.Dht.Json.{Node, put_json, get_json}
use mc_prototype.Task.Types.{Lease, no_lease}
use mc_prototype.Task.Keys.{key_lease}
use mc_prototype.Lease.Types.{Result, ok, err}
use mc_prototype.Lease.Store.{Turn, heartbeat}
use mc_prototype.Control.World.{Codecs, World, ok_true, text, Response, reply}
use mc_prototype.Control.Requests.{
  Env, Request, require_auth, path_parts, four_parts, ttl_or_default, heartbeat_token,
}

pub record HeartbeatIn : Type 0 where
  pub agent_id : String
  pub nonce : String
  pub ttl_sec : ℤ
  pub lease_version : ℤ

-- The lease document after a heartbeat.
unfoldable pub renew_lease : String → ℕ → Lease → Lease
renew_lease agent expires cur = record cur {
  owner = agent;
  expires = expires;
  version = suc64 cur.version;
}

module _ (n : Network) (ns : String) (c : Codecs n.Bytes) where
  renew_mirror : String → String → ℕ → Node n → Node n
  unfolding renew_lease
  renew_mirror id agent expires nd =
      let (nd1, cur, _) = get_json n ns c.lease nd (key_lease id) no_lease in
      (put_json n ns c.lease nd1 (key_lease id) (renew_lease agent expires cur)).0

  on_heartbeat : String → String → ℕ → World n → Result (Unit {0}) → World n × Response
  unfolding renew_mirror
  on_heartbeat id agent expires w (err e) = (w, reply 409 (text "heartbeat failed"))
  on_heartbeat id agent expires w (ok _) =
      (record w { node = renew_mirror id agent expires w.node }, reply 200 ok_true)

  beat_job : Turn → ℕ → World n → String → String → HeartbeatIn → World n × Response
  unfolding on_heartbeat
  beat_job turn now w header id i =
      let ttl = ttl_or_default i.ttl_sec in
      let token = heartbeat_token i.lease_version i.nonce header in
      if token == 0
      then (w, reply 400 (text "missing lease token"))
      else (let (t, r) = heartbeat turn id i.agent_id token ttl w.table in
          on_heartbeat id i.agent_id (now + ttl) (record w { table = t }) r)

  beat_body : Turn → ℕ → World n → String → Option HeartbeatIn → Option String → World n × Response
  unfolding beat_job
  beat_body turn now w header body none = (w, reply 400 (text "bad path"))
  beat_body turn now w header none (some id) = (w, reply 400 (text "bad json"))
  beat_body turn now w header (some i) (some id) = beat_job turn now w header id i

  unfoldable pub heartbeat_handler :
      Env → Turn → ℕ → Request HeartbeatIn → World n → World n × Response
  unfolding beat_body
  heartbeat_handler env turn now r w =
      if not (require_auth env r)
      then (w, reply 401 (text "unauthorized"))
      else beat_body turn now w r.token_header r.body
          (four_parts "api" "tasks" "heartbeat" (path_parts r))
