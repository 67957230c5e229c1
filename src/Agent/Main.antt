-- ===== src/Agent/Main.antt =====
-- The flags, the node and the clients of cmd/agent/main.go.
use mc_prototype.Base.{ℤ, String, List, [], Option, none, some, str_eq, if◌then◌else◌}
use mc_prototype.Text.Parts.{comma_parts}
use mc_prototype.Dht.Addresses.{Interface}
use mc_prototype.Dht.Start.{Library, Readings, Outcome, failed, up, new_node}
use mc_prototype.Agent.Execution.{Config}
use mc_prototype.Agent.Heartbeats.{seconds, heartbeat_every}

pub record Flags : Type 0 where
  pub ns : String
  pub bootstrap : String
  pub control_url : String
  pub control : String
  pub auth_token : String
  pub ttl_sec : ℤ
  pub heartbeat_sec : ℤ

-- The peers of the flag -bootstrap.
unfoldable pub bootstrap_peers : String → List String
bootstrap_peers s = if str_eq s "" then [] else comma_parts s

-- -control-url, or its alias -control.
base_of : Flags → String
base_of f = if str_eq f.control "" then f.control_url else f.control

-- -auth-token, or CONTROL_TOKEN of the environment.
token_of : String → Flags → String
token_of control_token f = if str_eq f.auth_token "" then control_token else f.auth_token

unfoldable pub config_of : String → String → Flags → Config
unfolding base_of token_of
config_of control_token agent_id f = record {
  control_url = base_of f;
  token = token_of control_token f;
  agent_id = agent_id;
  ttl = seconds f.ttl_sec;
}

module _ (l : Library) where
  unfoldable pub init_dht_node :
      List Interface → Readings → String → String → Option (Outcome l.Host)
  unfolding bootstrap_peers
  init_dht_node interfaces r ns peers = new_node l interfaces r ns (bootstrap_peers peers)

  -- The configuration and the interval of heartbeats, or the end by log.Fatalf.
  agent_start : String → Flags → Outcome l.Host → Option (Config × ℤ)
  unfolding config_of
  agent_start control_token f (failed e) = none
  agent_start control_token f (up h) =
      some (config_of control_token (l.id h) f, heartbeat_every f.ttl_sec f.heartbeat_sec)

  started : String → Flags → Option (Outcome l.Host) → Option (Config × ℤ)
  unfolding agent_start
  started control_token f none = none
  started control_token f (some o) = agent_start control_token f o

  -- main, up to the start of the discoverer.
  unfoldable pub agent_main : List Interface → Readings → String → Flags → Option (Config × ℤ)
  unfolding started
  agent_main interfaces r control_token f =
      started control_token f (init_dht_node interfaces r f.ns f.bootstrap)
