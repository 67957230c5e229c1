-- ===== src/Task/Leases.antt =====
-- internal/task/claim.go: leases kept in the DHT, by PutJSONCAS on the key of the job's lease.
-- json.Marshal of a lease fails only for years outside 0 to 9999; where it does, the error is the
-- check's. Round `i` of PutJSONCAS reads the clock `clock i`.
pub mod Laws
use mc_prototype.Base.{ℕ, String, Option, none, some, Bool, true, false, ℤ}
use mc_prototype.Dht.Network.{Network, Codec}
use mc_prototype.Dht.Json.{Node}
use mc_prototype.Dht.Cas.{CasError, put_json_cas}
use mc_prototype.Task.Types.{Lease, no_lease}
use mc_prototype.Task.Keys.{key_lease}
use mc_prototype.Task.Claim.{
  Verdict, fails, declines, writes, LeaseError, bad_json, Stored, empty, corrupt, found,
  claim_check, heartbeat_check, release_check, lease_ttl,
}

module _ {B : Type 0} (c : Codec B Lease) where
  read_lease : Lease × Bool → Stored
  read_lease (l, true) = found l
  read_lease (l, false) = corrupt

  unfoldable pub stored : Option B → Stored
  unfolding read_lease
  stored none = empty
  stored (some b) = read_lease (c.unmarshal b no_lease)

  encode : Option B → Verdict LeaseError B
  encode none = fails bad_json
  encode (some b) = writes b

  pub to_bytes : Verdict LeaseError Lease → Verdict LeaseError B
  unfolding encode
  to_bytes (fails e) = fails e
  to_bytes declines = declines
  to_bytes (writes l) = encode (c.marshal l)

module _ (n : Network) (ns : String) (c : Codec n.Bytes Lease) (clock : ℕ → ℕ) where
  -- Claim; its result is the nonce.
  pub claim : Node n → String → String → String → ℤ → Node n × Option (CasError LeaseError)
  claim d id peer nonce ttl =
      put_json_cas n ns
        (λ i prev. to_bytes c (claim_check (clock i) peer nonce (lease_ttl ttl) (stored c prev))) d
        (key_lease id)

  pub heartbeat : Node n → String → String → String → ℤ → Node n × Option (CasError LeaseError)
  heartbeat d id peer nonce ttl =
      put_json_cas n ns
        (λ i prev.
          to_bytes c (heartbeat_check (clock i) peer nonce (lease_ttl ttl) (stored c prev)))
        d (key_lease id)

  pub release : Node n → String → String → String → Node n × Option (CasError LeaseError)
  release d id peer nonce =
      put_json_cas n ns (λ i prev. to_bytes c (release_check peer nonce (stored c prev))) d
        (key_lease id)
