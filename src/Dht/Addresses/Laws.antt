-- ===== src/Dht/Addresses/Laws.antt =====
-- What detectIPv4Addrs and the AddrsFactory of internal/dht/node.go advertise.
use Prim.Native.String.{◌++◌}
use mathlib.Core.List.{List, [], ◌∷◌, Mem, mem-cons_self, mem-cons_of_mem}
use mc_prototype.Base.{
  ◌≡◌, ◌⊎◌, inl, inr, refl, String, Option, Option-cases, none, some, Bool-cases, true, ◌||◌, All,
  All-append, if◌then◌else◌,
}
use mc_prototype.Text.{contains}
use mc_prototype.Dht.Addresses.{
  Ip, Interface, ip_text, is_tailnet, is_private, reachable, of_interfaces, detect_ipv4_addrs,
  Multiaddrs, if_parsed, parsed, advertise_udp, advertise_one, advertised,
}

-- A tailnet or private address of an interface that is up.
abbrev pub IsOf : List Interface → String → Type 0
IsOf interfaces t =
    (i : Interface) × (ip : Ip) × Mem i interfaces
    × (i.up ≡ true)
    × Mem (some ip) i.addrs
    × ((is_tailnet ip || is_private ip) ≡ true)
    × (ip_text ip ≡ t)

abbrev pub IsLocal : List Interface → String → Type 0
IsLocal interfaces t = (t ≡ "127.0.0.1") ⊎ IsOf interfaces t

All-map {ℓ κ} :
    {A : Type ℓ} {P Q : A → Type κ} (f : (a : A) → P a → Q a) (xs : List A) → All P xs → All Q xs
All-map f [] h = tt
All-map f (x ∷ xs) h = (f x h.0, All-map f xs h.1)

-- An address of one list of addresses.
abbrev IsIn : List (Option Ip) → String → Type 0
IsIn addrs t =
    (ip : Ip) × Mem (some ip) addrs × ((is_tailnet ip || is_private ip) ≡ true) × (ip_text ip ≡ t)

later-IsIn :
    (a : Option Ip) (rest : List (Option Ip)) (ts : List String)
    → All (IsIn rest) ts
    → All (IsIn (a ∷ rest)) ts
later-IsIn a rest ts = All-map (λ t (x : IsIn rest t). (x.0, mem-cons_of_mem a x.1, x.2, x.3)) ts

later-IsOf :
    (i : Interface) (rest : List Interface) (ts : List String)
    → All (IsOf rest) ts
    → All (IsOf (i ∷ rest)) ts
later-IsOf i rest ts =
    All-map (λ t (x : IsOf rest t). (x.0, x.1, mem-cons_of_mem i x.2, x.3, x.4, x.5, x.6)) ts

reachable-All : (addrs : List (Option Ip)) → All (IsIn addrs) (reachable addrs)
unfolding reachable
reachable-All [] = tt
reachable-All (none ∷ rest) = later-IsIn none rest (reachable rest) (reachable-All rest)
reachable-All (some ip ∷ rest) = elim (Bool-cases (is_tailnet ip || is_private ip)) [
  | inl e ↦ rw e (
    (ip, mem-cons_self, e, refl),
    later-IsIn (some ip) rest (reachable rest) (reachable-All rest),
  )
  | inr e ↦ rw e (later-IsIn (some ip) rest (reachable rest) (reachable-All rest))
]

of_interfaces-All : (interfaces : List Interface) → All (IsOf interfaces) (of_interfaces interfaces)
unfolding of_interfaces
of_interfaces-All [] = tt
of_interfaces-All (i ∷ rest) = elim (Bool-cases i.up) [
  | inl e ↦ simp e (
      All-append (IsOf (i ∷ rest)) (reachable i.addrs) (of_interfaces rest)
        (All-map (λ t (x : IsIn i.addrs t). (i, x.0, mem-cons_self, e, x.1, x.2, x.3))
          (reachable i.addrs) (reachable-All i.addrs))
        (later-IsOf i rest (of_interfaces rest) (of_interfaces-All rest)))
  | inr e ↦ simp e (later-IsOf i rest (of_interfaces rest) (of_interfaces-All rest))
]

detect-All : (interfaces : List Interface) → All (IsLocal interfaces) (detect_ipv4_addrs interfaces)
unfolding detect_ipv4_addrs
detect-All interfaces =
    All-append (IsLocal interfaces) (of_interfaces interfaces) ("127.0.0.1" ∷ [])
      (All-map (λ t (x : IsOf interfaces t). inr x) (of_interfaces interfaces)
        (of_interfaces-All interfaces))
      (inl refl, tt)

module _ (m : Multiaddrs) (P : String → Type 0) where
  -- A multiaddress that begins with an address for which P holds.
  abbrev Begins : m.Addr → Type 0
  Begins a = (ip : String) × (rest : String) × P ip × (m.parse ("/ip4/" ++ (ip ++ rest)) ≡ some a)

  parsed-All :
      (rest : String) (ips : List String)
      → All P ips
      → All Begins (parsed m (λ ip. "/ip4/" ++ (ip ++ rest)) ips)
  unfolding parsed
  parsed-All rest [] h = tt
  parsed-All rest (ip ∷ ips) h = elim (Option-cases (m.parse ("/ip4/" ++ (ip ++ rest)))) [
    | inl e ↦ rw (e, if_parsed) (parsed-All rest ips h.1)
    | inr (a, e) ↦ rw (e, if_parsed) ((ip, rest, h.0, e), parsed-All rest ips h.1)
  ]

  advertise_one-All :
      (ips : List String) (a : m.Addr) (port : Option String)
      → All P ips
      → All Begins (advertise_one m ips a port)
  unfolding advertise_one
  advertise_one-All ips a (some port) h = parsed-All ("/tcp/" ++ port) ips h
  advertise_one-All ips a none h = udp (m.udp a)
    where
      udp : (o : Option String) → All Begins (advertise_udp m ips a o)
      udp none = tt
      udp (some port) =
          let suffix : String = if contains (m.text a) "/quic-v1" then "/quic-v1" else "" in
          parsed-All ("/udp/" ++ (port ++ suffix)) ips h

  advertised-All :
      (ips : List String) (ins : List m.Addr) → All P ips → All Begins (advertised m ips ins)
  unfolding advertised
  advertised-All ips [] h = tt
  advertised-All ips (a ∷ ins) h =
      All-append Begins (advertise_one m ips a (m.tcp a)) (advertised m ips ins)
        (advertise_one-All ips a (m.tcp a) h) (advertised-All ips ins h)

-- Every address that a node advertises begins with 127.0.0.1, or with a tailnet or private address of
-- one of the machine's interfaces that are up.
pub advertised-IsLocal :
    (m : Multiaddrs) (interfaces : List Interface) (ins : List m.Addr)
    → All
        (λ a.
          (ip : String) × (rest : String) × IsLocal interfaces ip
          × (m.parse ("/ip4/" ++ (ip ++ rest)) ≡ some a))
        (advertised m (detect_ipv4_addrs interfaces) ins)
advertised-IsLocal m interfaces ins =
    advertised-All m (IsLocal interfaces) (detect_ipv4_addrs interfaces) ins (detect-All interfaces)
