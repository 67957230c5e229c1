-- ===== src/Dht/Addresses.antt =====
-- The addresses that a node advertises: detectIPv4Addrs and the AddrsFactory of internal/dht/node.go.
-- go-multiaddr is a parameter, and so are the interfaces that package net lists.
pub mod Laws
use Prim.Native.String.{◌++◌}
use mathlib.Core.List.{List, [], ◌∷◌, ◌++◌ as append}
use mc_prototype.Base.{
  ℕ, String, Option, none, some, Bool, ◌&&◌, ◌||◌, leb, str_eq, ◌==◌, if◌then◌else◌,
}
use mc_prototype.Text.{contains}
use mc_prototype.Text.Decimal.{format_uint}

-- The four bytes of ip.To4().
pub record Ip : Type 0 where
  pub first : ℕ
  pub second : ℕ
  pub third : ℕ
  pub fourth : ℕ

-- An address is none where it is no *net.IPNet, or where To4 gives nil.
pub record Interface : Type 0 where
  pub name : String
  pub up : Bool
  pub addrs : List (Option Ip)

abbrev pub ip_text : Ip → String
ip_text ip =
    format_uint ip.first
    ++ ("."
        ++ (format_uint ip.second
            ++ ("." ++ (format_uint ip.third ++ ("." ++ format_uint ip.fourth)))))

-- 100.64/10
unfoldable pub is_tailnet : Ip → Bool
is_tailnet ip = (ip.first == 100) && (leb 64 ip.second && leb ip.second 127)

-- net.IP.IsPrivate: 10/8, 172.16/12 and 192.168/16
unfoldable pub is_private : Ip → Bool
is_private ip =
    (ip.first == 10)
    || (((ip.first == 172) && (leb 16 ip.second && leb ip.second 31))
        || ((ip.first == 192) && (ip.second == 168)))

reachable : List (Option Ip) → List String
reachable [] = []
reachable (none ∷ rest) = reachable rest
reachable (some ip ∷ rest) =
    let others = reachable rest in
    if is_tailnet ip || is_private ip then ip_text ip ∷ others else others

of_interfaces : List Interface → List String
unfolding reachable
of_interfaces [] = []
of_interfaces (i ∷ rest) =
    let others = of_interfaces rest in if i.up then append (reachable i.addrs) others else others

unfoldable pub detect_ipv4_addrs : List Interface → List String
unfolding of_interfaces
detect_ipv4_addrs interfaces = append (of_interfaces interfaces) ("127.0.0.1" ∷ [])

first_tailnet : List (Option Ip) → Option Ip
first_tailnet [] = none
first_tailnet (none ∷ rest) = first_tailnet rest
first_tailnet (some ip ∷ rest) =
    let later = first_tailnet rest in if is_tailnet ip then some ip else later

-- The first tailnet address of the interfaces that pass a test.
tailnet_of : (Interface → Bool) → List Interface → Option Ip
unfolding first_tailnet
tailnet_of p [] = none
tailnet_of p (i ∷ rest) =
    let later = tailnet_of p rest in
    elim (first_tailnet i.addrs) [ some ip ↦ if p i then some ip else later | none ↦ later ]

-- detectTailnetIPv4: from tailscale0, or else from any interface.
unfoldable pub detect_tailnet_ipv4 : List Interface → String
unfolding tailnet_of
detect_tailnet_ipv4 interfaces =
    elim (tailnet_of (λ i. str_eq i.name "tailscale0" && i.up) interfaces) [
      | some ip ↦ ip_text ip
      | none ↦ elim (tailnet_of (λ i. i.up) interfaces) [ some ip ↦ ip_text ip | none ↦ "" ]
    ]

-- What the factory asks of a multiaddress: its ports for TCP and for UDP, and its text; and
-- ma.NewMultiaddr, where it gives no error.
pub record Multiaddrs : Type 1 where
  pub Addr : Type 0
  pub tcp : Addr → Option String
  pub udp : Addr → Option String
  pub text : Addr → String
  pub parse : String → Option Addr

module _ (m : Multiaddrs) where
  if_parsed : Option m.Addr → List m.Addr → List m.Addr
  if_parsed none others = others
  if_parsed (some a) others = a ∷ others

  parsed : (String → String) → List String → List m.Addr
  unfolding if_parsed
  parsed f [] = []
  parsed f (ip ∷ ips) = if_parsed (m.parse (f ip)) (parsed f ips)

  -- One listening address, for each of the machine's addresses; one that is neither TCP nor UDP
  -- gives none.
  advertise_udp : List String → m.Addr → Option String → List m.Addr
  unfolding parsed
  advertise_udp ips a none = []
  advertise_udp ips a (some port) =
      let suffix : String = if contains (m.text a) "/quic-v1" then "/quic-v1" else "" in
      parsed (λ ip. "/ip4/" ++ (ip ++ ("/udp/" ++ (port ++ suffix)))) ips

  advertise_one : List String → m.Addr → Option String → List m.Addr
  unfolding parsed advertise_udp
  advertise_one ips a (some port) = parsed (λ ip. "/ip4/" ++ (ip ++ ("/tcp/" ++ port))) ips
  advertise_one ips a none = advertise_udp ips a (m.udp a)

  -- The function that libp2p.AddrsFactory is given.
  unfoldable pub advertised : List String → List m.Addr → List m.Addr
  unfolding advertise_one
  advertised ips [] = []
  advertised ips (a ∷ rest) = append (advertise_one ips a (m.tcp a)) (advertised ips rest)
