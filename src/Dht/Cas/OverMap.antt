-- ===== src/Dht/Cas/OverMap.antt =====
-- PutJSONCAS where the document store is a map and nothing else writes: one round decides.
use mc_prototype.Base.{
  ℕ, ◌≡◌, refl, String, Option, none, some, true, arith, if◌then◌else◌, ap, ◌∙◌, str_eq, eq_refl,
}
use mc_prototype.Dht.Network.{Network, PutError, no_peers, other}
use mc_prototype.Dht.Json.{Node, ns_key, put_bytes, get_bytes}
use mc_prototype.Dht.Json.Medium.{IsMap}
use mc_prototype.Task.Claim.{Verdict, fails, writes}
use mc_prototype.Dht.Cas.{
  CasError, check_failed, Round, done, stop, again, cas_round, cas_loop, put_json_cas, after_round,
  on_verdict, read_prev, put_reply, verify_reply, verify_bytes,
}

read_prev-get :
    (n : Network) (ns : String) (nd : Node n) (key : String)
    → read_prev n nd (ns_key ns key) (n.get_value nd.net (ns_key ns key)) ≡ get_bytes n ns nd key
unfolding get_bytes read_prev
read_prev-get n ns nd key = ground arith

module _ (n : Network) (ns : String) (holds : Node n → String → Option n.Bytes)
    (m : IsMap n ns holds) (same_refl : (b : n.Bytes) → n.same b b ≡ true) (E : Type 0) where
  -- A round that ends well and leaves `next` at the key.
  abbrev Wrote : Node n → String → n.Bytes → Node n × Round E → Type 0
  Wrote nd key next r =
      (r.1 ≡ done) × ((j : String) → holds r.0 j ≡ (if str_eq key j then some next else holds nd j))

  verify-Wrote :
      (nd nd2 : Node n) (key : String) (next : n.Bytes) (g : n.Net × Option n.Bytes)
      → n.get_value nd2.net (ns_key ns key) ≡ g
      → ((j : String) → holds nd2 j ≡ (if str_eq key j then some next else holds nd j))
      → Wrote nd key next (verify_reply n nd2 (ns_key ns key) next g)
  unfolding verify_reply verify_bytes get_bytes
  verify-Wrote nd nd2 key next (net, some v) e h = (
    ground (arith, m.get_reads nd2 key, h key, eq_refl key, same_refl next),
    λ j. ground (arith, m.holds_get nd2 key j, h j),
  )
  verify-Wrote nd nd2 key next (net, none) e h = (
    ground (arith, m.get_reads nd2 key, h key, eq_refl key, same_refl next),
    λ j. ground (arith, m.holds_get nd2 key j, h j),
  )

  put-Wrote :
      (nd : Node n) (key : String) (next : n.Bytes) (r : n.Net × Option PutError)
      → n.put_value nd.net (ns_key ns key) next ≡ r
      → Wrote nd key next (put_reply n nd (ns_key ns key) next r)
  unfolding put_reply put_bytes
  put-Wrote nd key next (net, some no_peers) e =
      (refl, λ j. ground (arith, m.holds_put nd key next j))
  put-Wrote nd key next (net, some other) e = absurd (ground (arith, m.put_ok nd key next))
  put-Wrote nd key next (net, none) e =
      verify-Wrote nd (record nd { net = net }) key next (n.get_value net (ns_key ns key)) refl
        (λ j. ground (arith, m.holds_put nd key next j))

  cas_round-Wrote :
      (check : Option n.Bytes → Verdict E n.Bytes) (nd : Node n) (key : String) (next : n.Bytes)
      → check (holds nd key) ≡ writes next
      → Wrote nd key next (cas_round n check nd (ns_key ns key))
  unfolding cas_round on_verdict
  cas_round-Wrote check nd key next c =
      let read = get_bytes n ns nd key in
      let (ok, there) =
        put-Wrote read.0 key next (n.put_value read.0.net (ns_key ns key) next) refl in
      let allowed : check read.1 ≡ writes next = ap check (m.get_reads nd key) ∙ c in
      rw (read_prev-get n ns nd key)
        (rw (allowed, on_verdict) (ok, λ j. ground (arith, there j, m.holds_get nd key j)))

  cas_round-stop :
      (check : Option n.Bytes → Verdict E n.Bytes) (nd : Node n) (key : String) (e : E)
      → check (holds nd key) ≡ fails e
      → cas_round n check nd (ns_key ns key) ≡ ((get_bytes n ns nd key).0, stop e)
  unfolding cas_round on_verdict
  cas_round-stop check nd key e c =
      let allowed : check (get_bytes n ns nd key).1 ≡ fails e = ap check (m.get_reads nd key) ∙ c in
      rw (read_prev-get n ns nd key) (rw (allowed, on_verdict) refl)

  after_done :
      (rest : Node n → CasError E → Node n × Option (CasError E)) (r : Node n × Round E)
      → r.1 ≡ done
      → after_round n rest r ≡ (r.0, none)
  unfolding after_round
  after_done rest (nd, done) h = refl
  after_done rest (nd, stop e) h = absurd (ground arith)
  after_done rest (nd, again e) h = absurd (ground arith)

  after_stop :
      (rest : Node n → CasError E → Node n × Option (CasError E)) (r : Node n × Round E)
      (nd : Node n) (e : E)
      → r ≡ (nd, stop e)
      → after_round n rest r ≡ (nd, some (check_failed e))
  unfolding after_round
  after_stop rest r nd e h = ap (after_round n rest) h

  -- Where the first check allows a value, the first round writes it, and nothing else changes.
  pub put_json_cas_writes :
      (check : ℕ → Option n.Bytes → Verdict E n.Bytes) (nd : Node n) (key : String) (next : n.Bytes)
      → check 0 (holds nd key) ≡ writes next
      → let (nd', e) = put_json_cas n ns check nd key in
        (e ≡ none) × ((j : String) → holds nd' j ≡ (if str_eq key j then some next else holds nd j))
  unfolding put_json_cas cas_loop
  put_json_cas_writes check nd key next c =
      let (ok, there) = cas_round-Wrote (check 0) nd key next c in
      rw (after_done _ (cas_round n (check 0) nd (ns_key ns key)) ok) (refl, there)

  -- Where it fails, PutJSONCAS returns the check's error, and nothing changes.
  pub put_json_cas_fails :
      (check : ℕ → Option n.Bytes → Verdict E n.Bytes) (nd : Node n) (key : String) (e : E)
      → check 0 (holds nd key) ≡ fails e
      → let (nd', e') = put_json_cas n ns check nd key in
        (e' ≡ some (check_failed e)) × ((j : String) → holds nd' j ≡ holds nd j)
  unfolding put_json_cas cas_loop
  put_json_cas_fails check nd key e c =
      rw
        (after_stop _ (cas_round n (check 0) nd (ns_key ns key)) (get_bytes n ns nd key).0 e
          (cas_round-stop (check 0) nd key e c))
        (refl, λ j. m.holds_get nd key j)
