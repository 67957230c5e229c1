-- ===== src/Dht/Json/Medium.antt =====
-- The document store of json.go as its clients see it while nothing else writes: a map from keys to
-- documents. It is that over a network that answers every call, and on a node without peers.
use Prim.Native.String.{◌++◌}
use text.Mathlib.TextLemmas.{append_cancel_left}
use mc_prototype.Base.{
  ◌≡◌, ◌≢◌, String, Option, none, some, true, str_eq, eq_iff, arith, ◌⊎◌, inl, inr, if◌then◌else◌,
  Bool-cases, eq_refl, ap,
}
use mc_prototype.Dht.Network.{Network, no_peers}
use mc_prototype.Dht.Json.{Node, ns_key, put_bytes, get_bytes, del_json}

pub ns_key_inj : (ns k j : String) → ns_key ns k ≡ ns_key ns j → k ≡ j
unfolding ns_key
ns_key_inj ns k j h = elim (Bool-cases (str_eq ns "")) [
  | inl e ↦ append_cancel_left "/" k j (rw e at h)
  | inr e ↦ append_cancel_left "/" k j (
      append_cancel_left ns ("/" ++ k) ("/" ++ j)
        (append_cancel_left "/" (ns ++ ("/" ++ k)) (ns ++ ("/" ++ j)) (rw e at h)))
]

str_eq-ns_key : (ns k j : String) → str_eq (ns_key ns k) (ns_key ns j) ≡ str_eq k j
str_eq-ns_key ns k j = ground (
  arith,
  eq_iff k j,
  eq_iff (ns_key ns k) (ns_key ns j),
  ns_key_inj ns k j,
  ap (ns_key ns) {x = k} {y = j},
)

-- `holds nd key` is what GetJSON would read at `key`.
pub record IsMap (n : Network) (ns : String) (holds : Node n → String → Option n.Bytes)
    : Type 0 where
  pub put_ok : (nd : Node n) (k : String) (b : n.Bytes) → (put_bytes n ns nd k b).1 ≡ true
  pub holds_put :
      (nd : Node n) (k : String) (b : n.Bytes) (j : String)
      → holds (put_bytes n ns nd k b).0 j ≡ (if str_eq k j then some b else holds nd j)
  pub get_reads : (nd : Node n) (k : String) → (get_bytes n ns nd k).1 ≡ holds nd k
  pub holds_get : (nd : Node n) (k j : String) → holds (get_bytes n ns nd k).0 j ≡ holds nd j
  pub del_ok : (nd : Node n) (k : String) → (del_json n ns nd k).1 ≡ true
  pub holds_del_self :
      (nd : Node n) (k : String)
      → (holds (del_json n ns nd k).0 k ≡ none)
        ⊎ (holds (del_json n ns nd k).0 k ≡ some n.tombstone)
  pub holds_del : (nd : Node n) (k j : String) → k ≢ j → holds (del_json n ns nd k).0 j ≡ holds nd j

-- A node without peers: no value is put, none is found.
pub record IsIsolated (n : Network) : Type 0 where
  pub no_put : (s : n.Net) (k : String) (b : n.Bytes) → (n.put_value s k b).1 ≡ some no_peers
  pub no_get : (s : n.Net) (k : String) → (n.get_value s k).1 ≡ none

-- A network that takes every value and finds the last one put: `content` is what it stores.
pub record IsConnected (n : Network) (content : n.Net → String → Option n.Bytes) : Type 0 where
  pub puts : (s : n.Net) (k : String) (b : n.Bytes) → (n.put_value s k b).1 ≡ none
  pub content_put :
      (s : n.Net) (k : String) (b : n.Bytes) (j : String)
      → content (n.put_value s k b).0 j ≡ (if str_eq k j then some b else content s j)
  pub gets : (s : n.Net) (k : String) → (n.get_value s k).1 ≡ content s k
  pub content_get : (s : n.Net) (k j : String) → content (n.get_value s k).0 j ≡ content s j

abbrev pub local_view : (n : Network) → String → Node n → String → Option n.Bytes
local_view n ns nd k = nd.local (ns_key ns k)

-- Without peers the local store alone is the map: PutJSON and DelJSON succeed and GetJSON reads the
-- last document put.
pub isolated-IsMap : (n : Network) (ns : String) → IsIsolated n → IsMap n ns (local_view n ns)
unfolding put_bytes get_bytes del_json
isolated-IsMap n ns c = record {
  put_ok = λ nd k b. ground (arith, c.no_put nd.net (ns_key ns k) b);
  holds_put = λ nd k b j. ground (arith, c.no_put nd.net (ns_key ns k) b, str_eq-ns_key ns k j);
  get_reads = λ nd k. ground (arith, c.no_get nd.net (ns_key ns k));
  holds_get = λ nd k j. ground (arith, c.no_get nd.net (ns_key ns k));
  del_ok = λ nd k. ground (arith, c.no_put nd.net (ns_key ns k) n.tombstone);
  holds_del_self = λ nd k.
      inl (ground (arith, c.no_put nd.net (ns_key ns k) n.tombstone, eq_refl (ns_key ns k)));
  holds_del = λ nd k j h.
      ground (arith, c.no_put nd.net (ns_key ns k) n.tombstone, str_eq-ns_key ns k j, eq_iff k j);
}

abbrev pub or_else {ℓ} : {A : Type ℓ} → Option A → Option A → Option A
or_else (some a) o = some a
or_else none o = o

abbrev pub shared_view :
    (n : Network) → String → (n.Net → String → Option n.Bytes) → Node n → String → Option n.Bytes
shared_view n ns content nd k = or_else (content nd.net (ns_key ns k)) (nd.local (ns_key ns k))

-- Over a network that answers every call the network's values are the map, and the local store
-- stands in for keys that the network does not have.
pub connected-IsMap :
    (n : Network) (ns : String) (content : n.Net → String → Option n.Bytes)
    → IsConnected n content
    → IsMap n ns (shared_view n ns content)
unfolding put_bytes get_bytes del_json
connected-IsMap n ns content c = record {
  put_ok = λ nd k b. ground (arith, c.puts nd.net (ns_key ns k) b);
  holds_put = λ nd k b j. ground (
    arith,
    c.puts nd.net (ns_key ns k) b,
    c.content_put nd.net (ns_key ns k) b (ns_key ns j),
    str_eq-ns_key ns k j,
  );
  get_reads = λ nd k. ground (arith, c.gets nd.net (ns_key ns k));
  holds_get = λ nd k j.
      ground (arith, c.gets nd.net (ns_key ns k), c.content_get nd.net (ns_key ns k) (ns_key ns j));
  del_ok = λ nd k. ground (arith, c.puts nd.net (ns_key ns k) n.tombstone);
  holds_del_self = λ nd k. inr (
      ground (
        arith,
        c.puts nd.net (ns_key ns k) n.tombstone,
        c.content_put nd.net (ns_key ns k) n.tombstone (ns_key ns k),
        eq_refl (ns_key ns k),
      ));
  holds_del = λ nd k j h. ground (
    arith,
    c.puts nd.net (ns_key ns k) n.tombstone,
    c.content_put nd.net (ns_key ns k) n.tombstone (ns_key ns j),
    str_eq-ns_key ns k j,
    eq_iff k j,
  );
}
