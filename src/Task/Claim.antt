-- ===== src/Task/Claim.antt =====
-- The `check` functions of internal/task/claim.go, which PutJSONCAS runs on the stored lease.
use mc_prototype.Base.{
  ℕ, ◌+◌, String, Bool, not, ◌&&◌, ltb, ◌==◌, str_eq, ℤ, pos, suc64, if◌then◌else◌,
}
use mc_prototype.Task.Types.{Lease, no_lease}

-- What a check hands to PutJSONCAS: (false, nil, e), (false, nil, nil) or (true, next, nil).
pub data Verdict (E V : Type 0) : Type 0 where
  fails : E → Verdict E V
  declines : Verdict E V
  writes : V → Verdict E V

pub data LeaseError : Type 0 where
  lease_busy lease_stolen bad_json : LeaseError

-- The stored bytes as a check sees them: none at all, no JSON of a lease, or a lease.
pub data Stored : Type 0 where
  empty corrupt : Stored
  found : Lease → Stored

-- Claim starts from the zero lease where nothing, or nothing readable, is stored.
abbrev pub old_lease : Stored → Lease
old_lease empty = no_lease
old_lease corrupt = no_lease
old_lease (found l) = l

-- old.Owner != "" && !old.Expires.IsZero() && old.Expires.After(now)
unfoldable pub is_alive : ℕ → Lease → Bool
is_alive now l = not (str_eq l.owner "") && (not (l.expires == 0) && ltb now l.expires)

unfoldable pub claim_check : ℕ → String → String → ℕ → Stored → Verdict LeaseError Lease
unfolding is_alive
claim_check now peer nonce ttl prev =
    let old = old_lease prev in
    if is_alive now old
    then fails lease_busy
    else writes
        (record { owner = peer; nonce = nonce; expires = now + ttl; version = suc64 old.version })

abbrev pub is_mine : String → String → Lease → Bool
is_mine peer nonce l = str_eq l.owner peer && str_eq l.nonce nonce

unfoldable pub heartbeat_check : ℕ → String → String → ℕ → Stored → Verdict LeaseError Lease
heartbeat_check now peer nonce ttl empty = declines
heartbeat_check now peer nonce ttl corrupt = fails bad_json
heartbeat_check now peer nonce ttl (found cur) =
    if is_mine peer nonce cur
    then writes (record cur { expires = now + ttl; version = suc64 cur.version })
    else fails lease_stolen

unfoldable pub release_check : String → String → Stored → Verdict LeaseError Lease
release_check peer nonce empty = declines
release_check peer nonce corrupt = fails bad_json
release_check peer nonce (found cur) =
    if is_mine peer nonce cur
    then writes (record { owner = ""; nonce = ""; expires = 0; version = suc64 cur.version })
    else fails lease_stolen

abbrev pub default_lease_ttl : ℕ
default_lease_ttl = 20000000000

-- `if ttl <= 0 { ttl = DefaultLeaseTTL }`
unfoldable pub lease_ttl : ℤ → ℕ
lease_ttl (pos n) = if ltb 0 n then n else default_lease_ttl
lease_ttl (ℤ.negsuc n) = default_lease_ttl
