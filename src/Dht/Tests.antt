-- ===== src/Dht/Tests.antt =====
-- The start of a node, and its addresses, at concrete calls.
use Prim.Native.String.{◌++◌}
use mathlib.Core.List.{List, [], ◌∷◌}
use mc_prototype.Base.{◌*◌, ◌≡◌, refl, String, Option, none, some, Bool, true, false, ◌==◌, arith}
use mc_prototype.Text.Decimal.{format_uint, write_digits, digit}
use mc_prototype.Text.{has_prefix}
use mc_prototype.Dht.Addresses.{
  Interface, Multiaddrs, detect_ipv4_addrs, advertised, is_tailnet, is_private,
}
use mc_prototype.Dht.Start.{
  Library, made, Outcome, up, Readings, new_node, wait_peers, connect_all, parse_info,
}
use mc_prototype.Dht.Start.Polls.{IsPaced}
use mc_prototype.Dht.Start.Peers.{Explains, new_node_returns}

-- Multiaddresses as their texts, all with one TCP port.
abbrev texts : Multiaddrs
texts = record {
  Addr = String;
  tcp = λ a. some "4001";
  udp = λ a. none;
  text = λ a. a;
  parse = λ s. some s;
}

-- A host is the list of the peers that it dialled.
abbrev recorder : Library
recorder = record {
  addresses = texts;
  Info = String;
  addr_info = λ a. if_peer (has_prefix a "/ip4/") a;
  Host = List String;
  new_host = λ factory. some [];
  new_dht = λ h mode namespace. made h;
  connect = λ h info. (info ∷ h, false);
  bootstrap = λ h. (h, true);
  id = λ h. "me";
  addrs = λ h. [];
  encapsulate = λ a s. a ++ s;
}
  where
    if_peer : Bool → String → Option String
    if_peer true a = some a
    if_peer false a = none

abbrev slow : Readings
slow = record { has_peer = λ i. i == 3; clock = λ i. i * 200000000; start = 0 }

abbrev office : List Interface
office =
    record {
      name = "eth0";
      up = true;
      addrs =
          none
          ∷ some (record { first = 10; second = 0; third = 0; fourth = 7 })
          ∷ some (record { first = 8; second = 8; third = 8; fourth = 8 })
          ∷ [];
    }
    ∷ record {
      name = "tailscale0";
      up = false;
      addrs = some (record { first = 100; second = 64; third = 0; fourth = 1 }) ∷ [];
    }
    ∷ []

abbrev bootstrap : List String
bootstrap = "/ip4/10.0.0.1" ∷ "nonsense" ∷ []

slow-IsPaced : IsPaced slow
slow-IsPaced = record { first = omega arith; pauses = λ i. omega arith }

new_node_returns_example :
    (o : Outcome (List String)) × (new_node recorder office slow "mc" bootstrap ≡ some o)
    × Explains recorder office slow "mc" bootstrap o
new_node_returns_example = new_node_returns recorder office slow "mc" bootstrap slow-IsPaced

-- One peer is dialled, in vain, and another is met at the fourth turn.
new_node_up : new_node recorder office slow "mc" bootstrap ≡ some (up ("/ip4/10.0.0.1" ∷ []))
unfolding new_node has_prefix wait_peers connect_all parse_info
new_node_up = refl

-- The public address and that of the interface that is down are left out.
office_addrs :
    advertised texts (detect_ipv4_addrs office) ("any" ∷ [])
    ≡ "/ip4/10.0.0.7/tcp/4001" ∷ "/ip4/127.0.0.1/tcp/4001" ∷ []
unfolding advertised detect_ipv4_addrs is_tailnet is_private format_uint write_digits digit
office_addrs = refl
