-- ===== src/Dht/Cas/Laws.antt =====
-- What PutJSONCAS guarantees, over any network at all.
use mc_prototype.Base.{
  eq_refl, ℕ, zero, suc, ◌+◌, ◌<◌, ◌≡◌, inl, inr, refl, String, Option, none, some, true, arith, ap,
  Bool-cases, sym, ◌∙◌,
}
use mc_prototype.Dht.Network.{Network, PutError, no_peers, other}
use mc_prototype.Dht.Json.{Node, ns_key}
use mc_prototype.Task.Claim.{Verdict, fails, declines, writes}
use mc_prototype.Dht.Cas.{
  CasError, cas_conflict, Round, done, stop, again, cas_round, cas_loop, put_json_cas, after_round,
  on_verdict, read_prev, put_reply, verify_reply, verify_bytes,
}

-- How a value came to be stored at `k` by a put to the network `s`: the put was confirmed by a read, in
-- the network or in the local store, or it met no peers, and the local store has the value.
pub data Stored (n : Network) (k : String) (next : n.Bytes) (s : n.Net) (nd : Node n) : Type 0 where
  kept :
      n.put_value s k next ≡ (nd.net, some no_peers) → nd.local k ≡ some next → Stored n k next s nd
  confirmed :
      (s' : n.Net) (v : n.Bytes)
      → n.put_value s k next ≡ (s', none)
      → n.get_value s' k ≡ (nd.net, some v)
      → n.same v next ≡ true
      → Stored n k next s nd
  confirmed_local :
      (s' : n.Net) (v : n.Bytes)
      → n.put_value s k next ≡ (s', none)
      → n.get_value s' k ≡ (nd.net, none)
      → nd.local k ≡ some v
      → n.same v next ≡ true
      → Stored n k next s nd

-- What a round that begins with `nd` reads at `k`: the network's value, else the local store's.
abbrev pub there : (n : Network) → Node n → String → Option n.Bytes
there n nd k = elim (n.get_value nd.net k).1 [ none ↦ nd.local k | some v ↦ some v ]

read_prev_lem :
    (n : Network) (nd : Node n) (k : String) (g : n.Net × Option n.Bytes)
    → read_prev n nd k g
      ≡ (record nd { net = g.0 }, elim g.1 [ none ↦ nd.local k | some v ↦ some v ])
unfolding read_prev
read_prev_lem n nd k (net, none) = refl
read_prev_lem n nd k (net, some v) = refl

-- The rounds from the i-th on, up to the j-th, that ended in a further try, from one node to the next.
pub data Retried (n : Network) {E : Type 0} (check : ℕ → Option n.Bytes → Verdict E n.Bytes)
    (k : String) : ℕ → Node n → ℕ → Node n → Type 0 where
  here : {i : ℕ} {nd : Node n} → Retried n check k i nd i nd
  tried :
      {i j : ℕ} {nd nd1 nd2 : Node n} {e : CasError E}
      → cas_round n (check i) nd k ≡ (nd1, again e)
      → Retried n check k (suc i) nd1 j nd2
      → Retried n check k i nd j nd2

module _ (n : Network) {E : Type 0} where
  -- The check of round i allowed a value for what the round read, and the value was put to the network
  -- that the read left, and stored.
  abbrev pub Success :
      ℕ → (ℕ → Option n.Bytes → Verdict E n.Bytes) → String → Node n → Node n → Type 0
  Success i check k before nd =
      (next : n.Bytes) × (check i (there n before k) ≡ writes next)
      × Stored n k next (n.get_value before.net k).0 nd

  -- Some round before the `end`-th succeeded, after rounds that ended in a further try.
  abbrev pub Succeeds :
      ℕ → ℕ → (ℕ → Option n.Bytes → Verdict E n.Bytes) → String → Node n → Node n → Type 0
  Succeeds i end check k nd nd' =
      (j : ℕ) × (j < end)
      × (before : Node n) × Retried n check k i nd j before
      × Success j check k before nd'

  verify_local-Stored :
      (nd nd' : Node n) (k : String) (next : n.Bytes) (s s' net : n.Net) (o : Option n.Bytes)
      → nd.local k ≡ o
      → n.put_value s k next ≡ (s', none)
      → n.get_value s' k ≡ (net, none)
      → ◌≡◌ {A = Node n × Round E} (record nd { net = net }, verify_bytes n next o) (nd', done)
      → Stored n k next s nd'
  unfolding verify_bytes
  verify_local-Stored nd nd' k next s s' net none l p g h = absurd (ground arith)
  verify_local-Stored nd nd' k next s s' net (some v) l p g h = elim (Bool-cases (n.same v next)) [
    | inl e ↦
        confirmed_local s' v p (g ∙ ground arith)
          (ap (λ (q : Node n × Round E). q.0.local k) (sym h) ∙ l) e
    | inr e ↦ absurd (ground arith)
  ]

  verify_reply-Stored :
      (nd nd' : Node n) (k : String) (next : n.Bytes) (s s' : n.Net) (g : n.Net × Option n.Bytes)
      → n.put_value s k next ≡ (s', none)
      → n.get_value s' k ≡ g
      → verify_reply n {E = E} nd k next g ≡ (nd', done)
      → Stored n k next s nd'
  unfolding verify_reply verify_bytes
  verify_reply-Stored nd nd' k next s s' (net, some v) p g h = elim (Bool-cases (n.same v next)) [
    | inl e ↦ confirmed s' v p (g ∙ ground arith) e
    | inr e ↦ absurd (ground arith)
  ]
  verify_reply-Stored nd nd' k next s s' (net, none) p g h =
      verify_local-Stored nd nd' k next s s' net (nd.local k) refl p g h

  put_reply-Stored :
      (nd nd' : Node n) (k : String) (next : n.Bytes) (s : n.Net) (r : n.Net × Option PutError)
      → n.put_value s k next ≡ r
      → put_reply n {E = E} nd k next r ≡ (nd', done)
      → Stored n k next s nd'
  unfolding put_reply
  put_reply-Stored nd nd' k next s (net, some no_peers) p h =
      kept (p ∙ ground arith) (ground (arith, eq_refl k))
  put_reply-Stored nd nd' k next s (net, some other) p h = absurd (ground arith)
  put_reply-Stored nd nd' k next s (net, none) p h =
      verify_reply-Stored (record nd { net = net }) nd' k next s net (n.get_value net k) p refl h

  on_verdict-Stored :
      (nd nd' : Node n) (k : String) (v : Verdict E n.Bytes)
      → on_verdict n nd k v ≡ (nd', done)
      → (next : n.Bytes) × (v ≡ writes next) × Stored n k next nd.net nd'
  unfolding on_verdict
  on_verdict-Stored nd nd' k (fails e) h = absurd (ground arith)
  on_verdict-Stored nd nd' k declines h = absurd (ground arith)
  on_verdict-Stored nd nd' k (writes next) h =
      (next, refl, put_reply-Stored nd nd' k next nd.net (n.put_value nd.net k next) refl h)

  cas_round-Success :
      (i : ℕ) (check : ℕ → Option n.Bytes → Verdict E n.Bytes) (nd nd' : Node n) (k : String)
      → cas_round n (check i) nd k ≡ (nd', done)
      → Success i check k nd nd'
  unfolding cas_round
  cas_round-Success i check nd nd' k h =
      on_verdict-Stored (record nd { net = (n.get_value nd.net k).0 }) nd' k
        (check i (there n nd k)) (rw (read_prev_lem n nd k (n.get_value nd.net k)) at h)

  after_round-Success :
      (left i : ℕ) (check : ℕ → Option n.Bytes → Verdict E n.Bytes) (nd nd' : Node n) (k : String)
      (r : Node n × Round E)
      → cas_round n (check i) nd k ≡ r
      → ((nd1 : Node n) (e : CasError E)
          → cas_loop n left (suc i) check nd1 k e ≡ (nd', none)
          → Succeeds (suc i) (suc i + left) check k nd1 nd')
      → after_round n (λ nd1 e. cas_loop n left (suc i) check nd1 k e) r ≡ (nd', none)
      → Succeeds i (i + suc left) check k nd nd'
  unfolding after_round
  after_round-Success left i check nd nd' k (nd1, done) c ih h =
      (i, omega arith, nd, here, cas_round-Success i check nd nd' k (c ∙ ground arith))
  after_round-Success left i check nd nd' k (nd1, stop e) c ih h = absurd (ground arith)
  after_round-Success left i check nd nd' k (nd1, again e) c ih h =
      let (j, below, before, rounds, s) = ih nd1 e h in (j, omega arith, before, tried c rounds, s)

  cas_loop-Success :
      (left i : ℕ) (check : ℕ → Option n.Bytes → Verdict E n.Bytes) (nd nd' : Node n) (k : String)
      (last : CasError E)
      → cas_loop n left i check nd k last ≡ (nd', none)
      → Succeeds i (i + left) check k nd nd'
  unfolding cas_loop
  cas_loop-Success zero i check nd nd' k last h = absurd (ground arith)
  cas_loop-Success (suc left) i check nd nd' k last h =
      after_round-Success left i check nd nd' k (cas_round n (check i) nd k) refl
        (λ nd1 e. cas_loop-Success left (suc i) check nd1 nd' k e) h

  -- Whatever the network does, PutJSONCAS returns no error only if one of its five rounds, after rounds
  -- that ended in a further try, read the network's value, or the local store's where there is none; its
  -- check allowed a new value for that; and the new value was put to the network that the read left, and
  -- then found in place, or the put met no peers and the local store has it.
  pub put_json_cas-Success :
      (namespace : String) (check : ℕ → Option n.Bytes → Verdict E n.Bytes) (nd nd' : Node n)
      (key : String)
      → put_json_cas n namespace check nd key ≡ (nd', none)
      → Succeeds 0 5 check (ns_key namespace key) nd nd'
  unfolding put_json_cas
  put_json_cas-Success namespace check nd nd' key h =
      cas_loop-Success 5 0 check nd nd' (ns_key namespace key) cas_conflict h
