-- ===== src/Dht/Json.antt =====
-- internal/dht/json.go, and the key prefix of node.go.
pub mod Medium
pub mod Documents
use Prim.Native.String.{◌++◌}
use mc_prototype.Base.{ℕ, String, Option, none, some, Bool, true, false, str_eq, if◌then◌else◌}
use mc_prototype.Dht.Network.{Network, Codec, PutError, no_peers, other}

-- nsKey.
unfoldable pub ns_key : String → String → String
ns_key namespace key =
    if str_eq namespace "" then "/" ++ key else "/" ++ (namespace ++ ("/" ++ key))

-- The network as the node meets it, and the package's localStore.
pub record Node (n : Network) : Type 0 where
  pub net : n.Net
  pub local : String → Option n.Bytes

abbrev pub store_local : {V : Type 0} → (String → Option V) → String → V → String → Option V
store_local f k v j = if str_eq k j then some v else f j

abbrev pub delete_local : {V : Type 0} → (String → Option V) → String → String → Option V
delete_local f k j = if str_eq k j then none else f j

module _ (n : Network) (namespace : String) where
  put_reply : Node n → String → n.Bytes → n.Net × Option PutError → Node n × Bool
  put_reply nd k b (net, none) = (record nd { net = net }, true)
  put_reply nd k b (net, some no_peers) =
      (record nd { net = net; local = store_local nd.local k b }, true)
  put_reply nd k b (net, some other) = (record nd { net = net }, false)

  -- PutJSON behind json.Marshal; the Boolean is `err == nil`.
  unfoldable pub put_bytes : Node n → String → n.Bytes → Node n × Bool
  unfolding put_reply
  put_bytes nd key b = let k = ns_key namespace key in put_reply nd k b (n.put_value nd.net k b)

  unfoldable pub put_json : {A : Type 0} → Codec n.Bytes A → Node n → String → A → Node n × Bool
  put_json c nd key v = elim (c.marshal v) [ none ↦ (nd, false) | some b ↦ put_bytes nd key b ]

  del_reply : String → Node n × Bool → Node n × Bool
  del_reply k (nd, false) = (nd, false)
  del_reply k (nd, true) = (record nd { local = delete_local nd.local k }, true)

  -- The tombstone is the JSON text of struct{}{}.
  unfoldable pub del_json : Node n → String → Node n × Bool
  unfolding del_reply
  del_json nd key = del_reply (ns_key namespace key) (put_bytes nd key n.tombstone)

  or_local : Node n → String → n.Net × Option n.Bytes → Node n × Option n.Bytes
  or_local nd k (net, some v) = (record nd { net = net }, some v)
  or_local nd k (net, none) = (record nd { net = net }, nd.local k)

  -- GetJSON up to json.Unmarshal: the network's value, else that of the local store.
  unfoldable pub get_bytes : Node n → String → Node n × Option n.Bytes
  unfolding or_local
  get_bytes nd key = let k = ns_key namespace key in or_local nd k (n.get_value nd.net k)

  decode : {A : Type 0} → Codec n.Bytes A → A → Node n × Option n.Bytes → Node n × A × Bool
  decode c target (nd, none) = (nd, target, false)
  decode c target (nd, some b) = let (a, ok) = c.unmarshal b target in (nd, a, ok)

  -- The target as it is afterwards, and `err == nil`.
  unfoldable pub get_json : {A : Type 0} → Codec n.Bytes A → Node n → String → A → Node n × A × Bool
  unfolding decode
  get_json c nd key target = decode c target (get_bytes nd key)
