-- ===== src/Dht/Start.antt =====
-- NewNode, Connect, Multiaddrs, Put and Get of internal/dht/node.go. go-libp2p, go-multiaddr and the
-- Kademlia DHT are parameters. A node that fails to start cancels its context, which nobody else has.
pub mod Peers
pub mod Polls
use Prim.Native.String.{◌++◌}
use mc_prototype.Base.{
  ℕ, zero, suc, ◌+◌, ◌*◌, ◌^◌, ◌%◌, ℤ, pos, negsuc, String, List, [], ◌∷◌, Option, none, some, Bool,
  true, false, map, ltb, ◌==◌, if◌then◌else◌,
}
use mc_prototype.Lease.Types.{second}
use mc_prototype.Dht.Network.{Network, PutError}
use mc_prototype.Dht.Json.{Node, ns_key}
use mc_prototype.Dht.Addresses.{Interface, Multiaddrs, detect_ipv4_addrs, advertised}

pub data Mode : Type 0 where
  auto_mode server_mode : Mode

-- dht.New: an error, a nil DHT, or the host with its DHT.
pub data Made (H : Type 0) : Type 0 where
  refused nil : Made H
  made : H → Made H

-- `Host` is a libp2p host with the DHT that runs on it, as the calls leave it.
pub record Library : Type 1 where
  pub addresses : Multiaddrs
  pub Info : Type 0
  pub addr_info : addresses.Addr → Option Info
  pub Host : Type 0
  pub new_host : (List addresses.Addr → List addresses.Addr) → Option Host
  pub new_dht : Host → Mode → String → Made Host
  pub connect : Host → Info → Host × Bool
  pub bootstrap : Host → Host × Bool
  pub id : Host → String
  pub addrs : Host → List addresses.Addr
  pub encapsulate : addresses.Addr → String → addresses.Addr

pub data StartError : Type 0 where
  libp2p_new dht_new dht_not_initialized dht_bootstrap no_peers_in_table : StartError

pub data Outcome (H : Type 0) : Type 0 where
  failed : StartError → Outcome H
  up : H → Outcome H

-- What the waiting loop reads at its i-th turn: whether the routing table has a peer, and the clock.
pub record Readings : Type 0 where
  pub has_peer : ℕ → Bool
  pub clock : ℕ → ℕ
  pub start : ℕ

abbrev pub millisecond : ℕ
millisecond = 1000000

abbrev pub deadline : Readings → ℕ
deadline r = r.start + 5 * second

-- `none` where the turns are used up; a turn ends with a pause of 200 ms.
unfoldable pub wait_peers : Readings → (left turn : ℕ) → Option Bool
wait_peers r zero i = none
wait_peers r (suc left) i =
    let rest = wait_peers r left (suc i) in
    if r.has_peer i then some true else if ltb (deadline r) (r.clock i) then some false else rest

abbrev pub max_turns : ℕ
max_turns = 27

module _ (l : Library) where
  -- ma.NewMultiaddr and peer.AddrInfoFromP2pAddr.
  unfoldable pub parse_info : String → Option l.Info
  parse_info s = elim (l.addresses.parse s) [ none ↦ none | some a ↦ l.addr_info a ]

  connect_one : l.Host → Option l.Info → l.Host
  connect_one h none = h
  connect_one h (some info) = (l.connect h info).0

  -- The bootstrap peers in order: what is no address of a peer is left out, and a failed Connect is
  -- passed over.
  unfoldable pub connect_all : List String → l.Host → l.Host
  unfolding connect_one
  connect_all [] h = h
  connect_all (s ∷ addrs) h = connect_all addrs (connect_one h (parse_info s))

  abbrev pub is_empty : List String → Bool
  is_empty [] = true
  is_empty (s ∷ rest) = false

  waited : l.Host → Option Bool → Option (Outcome l.Host)
  waited h none = none
  waited h (some false) = some (failed no_peers_in_table)
  waited h (some true) = some (up h)

  bootstrapped : Readings → List String → l.Host × Bool → Option (Outcome l.Host)
  unfolding waited
  bootstrapped r addrs (h, false) = some (failed dht_bootstrap)
  bootstrapped r addrs (h, true) =
      if is_empty addrs then some (up h) else waited h (wait_peers r max_turns 0)

  with_dht : Readings → List String → Made l.Host → Option (Outcome l.Host)
  unfolding bootstrapped
  with_dht r addrs refused = some (failed dht_new)
  with_dht r addrs nil = some (failed dht_not_initialized)
  with_dht r addrs (made h) = bootstrapped r addrs (l.bootstrap (connect_all addrs h))

  with_host : Readings → String → List String → Option l.Host → Option (Outcome l.Host)
  unfolding with_dht
  with_host r namespace addrs none = some (failed libp2p_new)
  with_host r namespace addrs (some h) =
      with_dht r addrs (l.new_dht h (if is_empty addrs then server_mode else auto_mode) namespace)

  -- NewNode, on a machine with these interfaces.
  unfoldable pub new_node :
      List Interface → Readings → String → List String → Option (Outcome l.Host)
  unfolding with_host
  new_node interfaces r namespace addrs =
      with_host r namespace addrs
        (l.new_host (advertised l.addresses (detect_ipv4_addrs interfaces)))

  pub data ConnectError : Type 0 where
    bad_multiaddr bad_p2p_addr not_connected : ConnectError

  connected : l.Host × Bool → l.Host × Option ConnectError
  connected (h, true) = (h, none)
  connected (h, false) = (h, some not_connected)

  with_addr : l.Host → Option l.Info → l.Host × Option ConnectError
  unfolding connected
  with_addr h none = (h, some bad_p2p_addr)
  with_addr h (some info) = connected (l.connect h info)

  -- Node.Connect.
  unfoldable pub connect_to : String → l.Host → l.Host × Option ConnectError
  unfolding with_addr
  connect_to s h = elim (l.addresses.parse s) [
    | none ↦ (h, some bad_multiaddr)
    | some a ↦ with_addr h (l.addr_info a)
  ]

  -- Node.Multiaddrs.
  unfoldable pub multiaddrs : l.Host → List String
  multiaddrs h = map (λ a. l.addresses.text (l.encapsulate a ("/p2p/" ++ l.id h))) (l.addrs h)

-- withTimeout, in nanoseconds.
unfoldable pub effective_timeout : ℤ → ℕ
effective_timeout (negsuc d) = 5 * second
effective_timeout (pos d) = if d == 0 then 5 * second else d

-- jitterBackoff, where `r` is what math/rand draws.
unfoldable pub jitter_backoff : ℕ → ℕ → ℕ
jitter_backoff i r = 100 * millisecond * 2 ^ i + (r % 200) * millisecond

module _ (n : Network) (namespace : String) where
  -- Put and Get of raw bytes, without the local store.
  unfoldable pub put_raw : Node n → String → n.Bytes → Node n × Option PutError
  put_raw nd key b =
      let (net, e) = n.put_value nd.net (ns_key namespace key) b in (record nd { net = net }, e)

  unfoldable pub get_raw : Node n → String → Node n × Option n.Bytes
  get_raw nd key =
      let (net, v) = n.get_value nd.net (ns_key namespace key) in (record nd { net = net }, v)
