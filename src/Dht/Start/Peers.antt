-- ===== src/Dht/Start/Peers.antt =====
-- How NewNode of internal/dht/node.go ends.
use mathlib.Core.List.{foldl, filter_map}
use mc_prototype.Base.{
  ◌≡◌, ◌≢◌, ◌⊎◌, inl, inr, refl, sym, ap, String, List, [], ◌∷◌, Option, Option-cases, none, some,
  Bool, Bool-cases, true, false, if◌then◌else◌,
}
use mc_prototype.Dht.Addresses.{Interface, detect_ipv4_addrs, advertised}
use mc_prototype.Dht.Start.{
  Library, Mode, auto_mode, server_mode, Made, refused, nil, made, Outcome, failed, up, libp2p_new,
  dht_new, dht_not_initialized, dht_bootstrap, no_peers_in_table, Readings, max_turns, wait_peers,
  parse_info, connect_one, connect_all, is_empty, waited, bootstrapped, with_dht, with_host,
  new_node,
}
use mc_prototype.Dht.Start.Polls.{IsPaced, Met, Missed, Verdict, wait_peers_total}

module _ (l : Library) where
  -- Connect to each of the peers, whatever it answers.
  abbrev pub dial : l.Host → List l.Info → l.Host
  dial = foldl (λ h info. (l.connect h info).0)

  abbrev pub peers_of : List String → List l.Info
  peers_of = filter_map (parse_info l)

  connect_all-dial :
      (addrs : List String) (h : l.Host) → connect_all l addrs h ≡ dial h (peers_of addrs)
  unfolding connect_all filter_map
  connect_all-dial [] h = refl
  connect_all-dial (s ∷ addrs) h = elim (Option-cases (parse_info l s)) [
    | inl e ↦ rw (e, connect_one) (connect_all-dial addrs h)
    | inr (info, e) ↦ rw (e, connect_one) (connect_all-dial addrs (l.connect h info).0)
  ]

  is_empty_nil : (xs : List String) → is_empty l xs ≡ true → xs ≡ []
  is_empty_nil [] h = refl
  is_empty_nil (x ∷ xs) h = cc

  is_empty_some : (xs : List String) → is_empty l xs ≡ false → xs ≢ []
  is_empty_some [] h e = cc
  is_empty_some (x ∷ xs) h e = cc

  module _ (interfaces : List Interface) (r : Readings) (namespace : String)
      (addrs : List String) where
    abbrev pub mode : Mode
    mode = if is_empty l addrs then server_mode else auto_mode

    abbrev pub factory : List l.addresses.Addr → List l.addresses.Addr
    factory = advertised l.addresses (detect_ipv4_addrs interfaces)

    -- The DHT that is made on the host.
    abbrev pub Makes : Made l.Host → Type 0
    Makes d = (h : l.Host) × (l.new_host factory ≡ some h) × (l.new_dht h mode namespace ≡ d)

    abbrev pub Bootstraps : l.Host → Bool → Type 0
    Bootstraps h done =
        (d : l.Host) × Makes (made d) × (l.bootstrap (dial d (peers_of addrs)) ≡ (h, done))

    -- Why NewNode ends as it does.
    abbrev pub Explains : Outcome l.Host → Type 0
    Explains (up h) = Bootstraps h true × ((addrs ≡ []) ⊎ Met r 0)
    Explains (failed libp2p_new) = l.new_host factory ≡ none
    Explains (failed dht_new) = Makes refused
    Explains (failed dht_not_initialized) = Makes nil
    Explains (failed dht_bootstrap) = (h : l.Host) × Bootstraps h false
    Explains (failed no_peers_in_table) =
        ((h : l.Host) × Bootstraps h true) × (addrs ≢ []) × Missed r 0

    abbrev Returns : Option (Outcome l.Host) → Type 0
    Returns x = (o : Outcome l.Host) × (x ≡ some o) × Explains o

    wait-Returns :
        (h : l.Host) (b : Bool) (x : Option Bool)
        → x ≡ some b
        → Verdict r 0 b
        → Bootstraps h true
        → addrs ≢ []
        → Returns (waited l h x)
    unfolding waited
    wait-Returns h true x e v done some_addrs = (up h, ap (waited l h) e, (done, inr v))
    wait-Returns h false x e v done some_addrs =
        (failed no_peers_in_table, ap (waited l h) e, ((h, done), some_addrs, v))

    module _ (p : IsPaced r) where
      boot-Returns :
          (d : l.Host) (x : l.Host × Bool)
          → Makes (made d)
          → l.bootstrap (dial d (peers_of addrs)) ≡ x
          → Returns (bootstrapped l r addrs x)
      unfolding bootstrapped
      boot-Returns d (h, false) mk e = (failed dht_bootstrap, refl, (h, (d, mk, e)))
      boot-Returns d (h, true) mk e = elim (Bool-cases (is_empty l addrs)) [
        | inl alone ↦ (up h, rw alone refl, ((d, mk, e), inl (is_empty_nil addrs alone)))
        | inr others ↦
            let (b, found, v) = wait_peers_total r p in
            rw others (
              wait-Returns h b (wait_peers r max_turns 0) found v (d, mk, e)
                (is_empty_some addrs others))
      ]

      dht-Returns :
          (h : l.Host) (x : Made l.Host)
          → l.new_host factory ≡ some h
          → l.new_dht h mode namespace ≡ x
          → Returns (with_dht l r addrs x)
      unfolding with_dht
      dht-Returns h refused e k = (failed dht_new, refl, (h, e, k))
      dht-Returns h nil e k = (failed dht_not_initialized, refl, (h, e, k))
      dht-Returns h (made d) e k =
          boot-Returns d (l.bootstrap (connect_all l addrs d)) (h, e, k)
            (ap l.bootstrap (sym (connect_all-dial addrs d)))

      host-Returns :
          (x : Option l.Host) → l.new_host factory ≡ x → Returns (with_host l r namespace addrs x)
      unfolding with_host
      host-Returns none e = (failed libp2p_new, refl, e)
      host-Returns (some h) e = dht-Returns h (l.new_dht h mode namespace) e refl

    -- With pauses of 200 ms or more NewNode returns. It is up only after the bootstrap of a DHT from which
    -- each bootstrap peer was dialled in order, whatever came of that, and, where addresses are given,
    -- with a peer met by a turn before which none was past the five seconds. Otherwise its error says
    -- which step failed; without a peer, that no turn until after the five seconds met one.
    pub new_node_returns :
        IsPaced r
        → (o : Outcome l.Host) × (new_node l interfaces r namespace addrs ≡ some o) × Explains o
    unfolding new_node
    new_node_returns p = host-Returns p (l.new_host factory) refl
