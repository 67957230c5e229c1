-- ===== src/Dht/Network.antt =====
-- What internal/dht takes from libraries: the Kademlia DHT of go-libp2p-kad-dht and encoding/json.
-- Both are parameters of every module that uses them. Values are the non-empty texts that json.Marshal
-- writes: the program puts no other.
use mc_prototype.Base.{◌≡◌, String, Option, some, Bool, true}

-- The errors of PutValue: "failed to find any peer in table", and any other.
pub data PutError : Type 0 where
  no_peers other : PutError

-- `Net` is the state of the network as this node meets it: it settles the replies to all calls from
-- here on, those that other nodes' writes and failures cause included.
pub record Network : Type 1 where
  pub Bytes : Type 0
  pub Net : Type 0
  pub put_value : Net → String → Bytes → Net × Option PutError
  pub get_value : Net → String → Net × Option Bytes
  pub same : Bytes → Bytes → Bool
  pub tombstone : Bytes

-- json.Marshal of a Go type, `none` for an error, and json.Unmarshal into a target, which may be
-- changed also where the Boolean says that it failed.
pub record Codec (Bytes A : Type 0) : Type 0 where
  pub marshal : A → Option Bytes
  pub unmarshal : Bytes → A → A × Bool

-- What encoding/json documents of the program's types: a document is read back into the zero value
-- `z` as it was written, and the empty object changes nothing.
pub record IsFaithful {Bytes A : Type 0} (tombstone : Bytes) (z : A) (c : Codec Bytes A)
    : Type 0 where
  pub total : (a : A) → (b : Bytes) × (c.marshal a ≡ some b) × (c.unmarshal b z ≡ (a, true))
  pub blank : (a : A) → c.unmarshal tombstone a ≡ (a, true)
