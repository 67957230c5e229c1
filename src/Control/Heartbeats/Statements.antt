-- ===== src/Control/Heartbeats/Statements.antt =====
-- The statements that heartbeatHandler runs on the table.
use mc_prototype.Base.{ℕ, String, Option, none, some, Bool-cases, inl, inr, ◌==◌, ◌+◌}
use mc_prototype.Dht.Network.{Network}
use mc_prototype.Lease.Types.{Result, ok, err}
use mc_prototype.Lease.Store.{Turn, heartbeat}
use mc_prototype.Lease.Table.{Table}
use mc_prototype.Lease.Statements.{IsHistory, IsHistory-same, heartbeat-IsHistory}
use mc_prototype.Control.World.{Codecs, World}
use mc_prototype.Control.Requests.{
  Env, Request, require_auth, path_parts, four_parts, ttl_or_default, heartbeat_token,
}
use mc_prototype.Control.Heartbeats.{
  HeartbeatIn, on_heartbeat, beat_job, beat_body, heartbeat_handler,
}

module _ (n : Network) (ns : String) (c : Codecs n.Bytes) where
  on_heartbeat-IsHistory :
      (id agent : String) (expires : ℕ) (t : Table) (w : World n) (r : Result (Unit {0}))
      → IsHistory t w.table
      → IsHistory t (on_heartbeat n ns c id agent expires w r).0.table
  unfolding on_heartbeat
  on_heartbeat-IsHistory id agent expires t w (ok _) h = h
  on_heartbeat-IsHistory id agent expires t w (err e) h = h

  beat_job-IsHistory :
      (turn : Turn) (now : ℕ) (w : World n) (header id : String) (i : HeartbeatIn)
      → IsHistory w.table (beat_job n ns c turn now w header id i).0.table
  unfolding beat_job
  beat_job-IsHistory turn now w header id i =
      let ttl = ttl_or_default i.ttl_sec in
      let token = heartbeat_token i.lease_version i.nonce header in
      let (t, r) = heartbeat turn id i.agent_id token ttl w.table in
      elim (Bool-cases (token == 0)) [
        | inl e ↦ rw e (IsHistory-same w.table)
        | inr e ↦ rw e (
            on_heartbeat-IsHistory id i.agent_id (now + ttl) w.table (record w { table = t }) r
              (heartbeat-IsHistory turn id i.agent_id token ttl w.table))
      ]

  beat_body-IsHistory :
      (turn : Turn) (now : ℕ) (w : World n) (header : String) (body : Option HeartbeatIn)
      (id : Option String)
      → IsHistory w.table (beat_body n ns c turn now w header body id).0.table
  unfolding beat_body
  beat_body-IsHistory turn now w header none none = IsHistory-same w.table
  beat_body-IsHistory turn now w header (some i) none = IsHistory-same w.table
  beat_body-IsHistory turn now w header none (some id) = IsHistory-same w.table
  beat_body-IsHistory turn now w header (some i) (some id) =
      beat_job-IsHistory turn now w header id i

  pub heartbeat_handler-IsHistory :
      (env : Env) (turn : Turn) (now : ℕ) (r : Request HeartbeatIn) (w : World n)
      → IsHistory w.table (heartbeat_handler n ns c env turn now r w).0.table
  unfolding heartbeat_handler
  heartbeat_handler-IsHistory env turn now r w = elim (Bool-cases (require_auth env r)) [
    | inl e ↦ rw e (
        beat_body-IsHistory turn now w r.token_header r.body
          (four_parts "api" "tasks" "heartbeat" (path_parts r)))
    | inr e ↦ rw e (IsHistory-same w.table)
  ]
