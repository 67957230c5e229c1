-- ===== src/Dht/Cas.antt =====
-- PutJSONCAS of internal/dht/node.go: read, check, put and verify, at most five times. The pauses
-- between the rounds are not modelled; round `i` runs its check with whatever clock it reads.
pub mod Laws
pub mod OverMap
use mc_prototype.Base.{ℕ, zero, suc, String, Option, none, some, Bool, true, false, if◌then◌else◌}
use mc_prototype.Dht.Network.{Network, PutError, no_peers, other}
use mc_prototype.Dht.Json.{Node, ns_key, store_local}
use mc_prototype.Task.Claim.{Verdict, fails, declines, writes}

pub data CasError (E : Type 0) : Type 0 where
  cas_conflict put_failed get_failed : CasError E
  check_failed : E → CasError E

-- How one round of the loop ends: a return, or `continue` with lastErr set.
pub data Round (E : Type 0) : Type 0 where
  done : Round E
  stop : E → Round E
  again : CasError E → Round E

module _ (n : Network) where
  -- prev: the network's value, else the local store's, else nil.
  read_prev : Node n → String → n.Net × Option n.Bytes → Node n × Option n.Bytes
  read_prev nd k (net, some v) = (record nd { net = net }, some v)
  read_prev nd k (net, none) = (record nd { net = net }, nd.local k)

module _ (n : Network) {E : Type 0} where
  -- verify: the value that is there after the put.
  verify_bytes : n.Bytes → Option n.Bytes → Round E
  verify_bytes next none = again get_failed
  verify_bytes next (some after) = if n.same after next then done else again cas_conflict

  verify_reply : Node n → String → n.Bytes → n.Net × Option n.Bytes → Node n × Round E
  unfolding verify_bytes
  verify_reply nd k next (net, some after) =
      (record nd { net = net }, verify_bytes next (some after))
  verify_reply nd k next (net, none) = (record nd { net = net }, verify_bytes next (nd.local k))

  put_reply : Node n → String → n.Bytes → n.Net × Option PutError → Node n × Round E
  unfolding verify_reply
  put_reply nd k next (net, some no_peers) =
      (record nd { net = net; local = store_local nd.local k next }, done)
  put_reply nd k next (net, some other) = (record nd { net = net }, again put_failed)
  put_reply nd k next (net, none) =
      verify_reply (record nd { net = net }) k next (n.get_value net k)

  on_verdict : Node n → String → Verdict E n.Bytes → Node n × Round E
  unfolding put_reply
  on_verdict nd k (fails e) = (nd, stop e)
  on_verdict nd k declines = (nd, again cas_conflict)
  on_verdict nd k (writes next) = put_reply nd k next (n.put_value nd.net k next)

  unfoldable pub cas_round :
      (Option n.Bytes → Verdict E n.Bytes) → Node n → String → Node n × Round E
  unfolding read_prev on_verdict
  cas_round check nd k =
      let (nd', prev) = read_prev n nd k (n.get_value nd.net k) in on_verdict nd' k (check prev)

  after_round :
      (Node n → CasError E → Node n × Option (CasError E))
      → Node n × Round E
      → Node n × Option (CasError E)
  after_round rest (nd, done) = (nd, none)
  after_round rest (nd, stop e) = (nd, some (check_failed e))
  after_round rest (nd, again e) = rest nd e

  -- `left` rounds from round `i` on; lastErr is what the loop returns at its end.
  unfoldable pub cas_loop :
      ℕ
      → ℕ
      → (ℕ → Option n.Bytes → Verdict E n.Bytes)
      → Node n
      → String
      → CasError E
      → Node n × Option (CasError E)
  unfolding after_round
  cas_loop zero i check nd k last = (nd, some last)
  cas_loop (suc left) i check nd k last =
      after_round (λ nd' e. cas_loop left (suc i) check nd' k e) (cas_round (check i) nd k)

unfoldable pub put_json_cas :
    (n : Network) (namespace : String) {E : Type 0}
    → (ℕ → Option n.Bytes → Verdict E n.Bytes)
    → Node n
    → String
    → Node n × Option (CasError E)
unfolding cas_loop
put_json_cas n namespace check nd key = cas_loop n 5 0 check nd (ns_key namespace key) cas_conflict
