-- ===== src/Task/Leases/Laws.antt =====
-- The leases of internal/task/claim.go over a document store that is a map.
use mc_prototype.Base.{
  ◌⊎◌, inl, inr, ℕ, ◌+◌, ◌<◌, ◌≡◌, ◌≢◌, refl, String, Option, none, some, true, false, arith, ap,
  ◌∙◌, ℤ, suc64, str_ne, eq_refl, eq_iff,
}
use mc_prototype.Dht.Network.{Network, Codec, IsFaithful}
use mc_prototype.Dht.Json.{Node}
use mc_prototype.Dht.Json.Medium.{IsMap}
use mc_prototype.Dht.Cas.{put_json_cas, CasError, check_failed}
use mc_prototype.Dht.Cas.OverMap.{put_json_cas_writes, put_json_cas_fails}
use mc_prototype.Task.Types.{Lease, no_lease}
use mc_prototype.Task.Keys.{key_lease}
use mc_prototype.Task.Claim.{
  Verdict, fails, writes, LeaseError, lease_busy, lease_stolen, Stored, found, old_lease,
  claim_check, heartbeat_check, release_check, lease_ttl, is_alive,
}
use mc_prototype.Task.Leases.{stored, to_bytes, claim, heartbeat, release}

not_mine_heartbeat :
    (now ttl : ℕ) (peer nonce : String) (l : Lease)
    → (l.owner ≢ peer) ⊎ (l.nonce ≢ nonce)
    → heartbeat_check now peer nonce ttl (found l) ≡ fails lease_stolen
unfolding heartbeat_check
not_mine_heartbeat now ttl peer nonce l (inl o) = ground (arith, str_ne l.owner peer o)
not_mine_heartbeat now ttl peer nonce l (inr o) = ground (arith, str_ne l.nonce nonce o)

not_mine_release :
    (peer nonce : String) (l : Lease)
    → (l.owner ≢ peer) ⊎ (l.nonce ≢ nonce)
    → release_check peer nonce (found l) ≡ fails lease_stolen
unfolding release_check
not_mine_release peer nonce l (inl o) = ground (arith, str_ne l.owner peer o)
not_mine_release peer nonce l (inr o) = ground (arith, str_ne l.nonce nonce o)

module _ (n : Network) (ns : String) (c : Codec n.Bytes Lease)
    (holds : Node n → String → Option n.Bytes) (m : IsMap n ns holds)
    (same_refl : (b : n.Bytes) → n.same b b ≡ true) (j : IsFaithful n.tombstone no_lease c) where
  -- The lease document of a job.
  unfoldable pub lease_at : Node n → String → Stored
  lease_at d id = stored c (holds d (key_lease id))

  -- A verdict that writes `l`, in bytes that read back as `l`.
  to_bytes-writes :
      (v : Verdict LeaseError Lease) (l : Lease)
      → v ≡ writes l
      → (b : n.Bytes) × (to_bytes c v ≡ writes b) × (stored c (some b) ≡ found l)
  unfolding to_bytes stored
  to_bytes-writes v l e =
      let (b, written, back) = j.total l in (b, rw (e, written) refl, ground (arith, back))

  abbrev pub new_lease : ℕ → String → String → ℤ → Lease → Lease
  new_lease now peer nonce ttl old = record {
    owner = peer;
    nonce = nonce;
    expires = now + lease_ttl ttl;
    version = suc64 old.version;
  }

  to_bytes-fails :
      (v : Verdict LeaseError Lease) (e : LeaseError) → v ≡ fails e → to_bytes c v ≡ fails e
  unfolding to_bytes
  to_bytes-fails v e h = rw h refl

  -- An operation whose first check writes a lease stores it; one whose check fails changes nothing.
  module _ (d : Node n) (id : String) (check : ℕ → Stored → Verdict LeaseError Lease) where
    abbrev run : Node n × Option (CasError LeaseError)
    run = put_json_cas n ns (λ i prev. to_bytes c (check i (stored c prev))) d (key_lease id)

    check_writes :
        (l : Lease)
        → check 0 (lease_at d id) ≡ writes l
        → (run.1 ≡ none) × (lease_at run.0 id ≡ found l)
    unfolding lease_at
    check_writes l e =
        let (b, written, back) = to_bytes-writes (check 0 (lease_at d id)) l e in
        let (ok, there) =
          put_json_cas_writes n ns holds m same_refl LeaseError
            (λ i prev. to_bytes c (check i (stored c prev))) d (key_lease id) b written in
        (ok, ap (stored c) (there (key_lease id) ∙ rw (eq_refl (key_lease id)) refl) ∙ back)

    check_fails :
        (e : LeaseError)
        → check 0 (lease_at d id) ≡ fails e
        → (run.1 ≡ some (check_failed e)) × (lease_at run.0 id ≡ lease_at d id)
    unfolding lease_at
    check_fails e h =
        let (refused, there) =
          put_json_cas_fails n ns holds m same_refl LeaseError
            (λ i prev. to_bytes c (check i (stored c prev))) d (key_lease id) e
            (to_bytes-fails (check 0 (lease_at d id)) e h) in
        (refused, ap (stored c) (there (key_lease id)))

  claim_check_free :
      (now : ℕ) (peer nonce : String) (ttl : ℤ) (prev : Stored)
      → is_alive now (old_lease prev) ≡ false
      → claim_check now peer nonce (lease_ttl ttl) prev
        ≡ writes (new_lease now peer nonce ttl (old_lease prev))
  unfolding claim_check
  claim_check_free now peer nonce ttl prev h = rw h refl

  claim_check_busy :
      (now ttl : ℕ) (peer nonce : String) (l : Lease)
      → l.owner ≢ ""
      → now < l.expires
      → claim_check now peer nonce ttl (found l) ≡ fails lease_busy
  unfolding claim_check is_alive
  claim_check_busy now ttl peer nonce l o h = ground (arith, str_ne l.owner "" o)

  -- While nothing else writes: a claim, by a peer with a name, of a job with no live lease stores
  -- the claimer's lease, with the version after the old one's; and until that lease runs out a
  -- further claim is busy and leaves it in place.
  pub claim_excludes :
      (clock clock' : ℕ → ℕ) (d : Node n) (id peer nonce other nonce' : String) (ttl ttl' : ℤ)
      → is_alive (clock 0) (old_lease (lease_at d id)) ≡ false
      → peer ≢ ""
      → clock' 0 < clock 0 + lease_ttl ttl
      → let l = new_lease (clock 0) peer nonce ttl (old_lease (lease_at d id)) in
        let (d', e) = claim n ns c clock d id peer nonce ttl in
        let (d2, e2) = claim n ns c clock' d' id other nonce' ttl' in
        (e ≡ none)
        × (lease_at d' id ≡ found l)
        × (e2 ≡ some (check_failed lease_busy))
        × (lease_at d2 id ≡ found l)
  unfolding claim
  claim_excludes clock clock' d id peer nonce other nonce' ttl ttl' free named early =
      let l = new_lease (clock 0) peer nonce ttl (old_lease (lease_at d id)) in
      let first = λ (i : ℕ) (s : Stored). claim_check (clock i) peer nonce (lease_ttl ttl) s in
      let later = λ (i : ℕ) (s : Stored). claim_check (clock' i) other nonce' (lease_ttl ttl') s in
      let (ok, kept) =
        check_writes d id first l
          (claim_check_free (clock 0) peer nonce ttl (lease_at d id) free) in
      let d' = (run d id first).0 in
      let (busy, still) = check_fails d' id later lease_busy (
        ap (later 0) kept
        ∙ claim_check_busy (clock' 0) (lease_ttl ttl') other nonce' l named early) in
      (ok, kept, busy, still ∙ kept)

  release_check_mine :
      (peer nonce : String) (l : Lease)
      → l.owner ≡ peer
      → l.nonce ≡ nonce
      → release_check peer nonce (found l)
        ≡ writes (record { owner = ""; nonce = ""; expires = 0; version = suc64 l.version })
  unfolding release_check
  release_check_mine peer nonce l o k = ground (arith, eq_iff l.owner peer, eq_iff l.nonce nonce)

  -- While nothing else writes: a release with the owner and the nonce of the lease succeeds, and
  -- after it a claim by anybody, at any time, succeeds under a version two further on.
  pub release_reopens :
      (clock clock' : ℕ → ℕ) (d : Node n) (id peer nonce other nonce' : String) (ttl : ℤ)
      (l : Lease)
      → lease_at d id ≡ found l
      → l.owner ≡ peer
      → l.nonce ≡ nonce
      → let (d', e) = release n ns c clock d id peer nonce in
        let (d2, e2) = claim n ns c clock' d' id other nonce' ttl in
        (e ≡ none)
        × (e2 ≡ none)
        × (lease_at d2 id
            ≡ found (record {
              owner = other;
              nonce = nonce';
              expires = clock' 0 + lease_ttl ttl;
              version = suc64 (suc64 l.version);
            }))
  unfolding claim release
  release_reopens clock clock' d id peer nonce other nonce' ttl l at o k =
      let blank : Lease = record {
        owner = "";
        nonce = "";
        expires = 0;
        version = suc64 l.version;
      } in
      let frees = λ (i : ℕ) (s : Stored). release_check peer nonce s in
      let later = λ (i : ℕ) (s : Stored). claim_check (clock' i) other nonce' (lease_ttl ttl) s in
      let (ok, freed) =
        check_writes d id frees blank
          (ap (release_check peer nonce) at ∙ release_check_mine peer nonce l o k) in
      let d' = (run d id frees).0 in
      let (ok2, kept) = check_writes d' id later (new_lease (clock' 0) other nonce' ttl blank) (
        ap (later 0) freed
        ∙ claim_check_free (clock' 0) other nonce' ttl (found blank) (unfold is_alive in refl)) in
      (ok, ok2, kept)

  -- While nothing else writes: a heartbeat or a release with another owner or nonce than the
  -- lease's is refused as stolen, and leaves the lease in place.
  pub stolen_lease :
      (clock : ℕ → ℕ) (d : Node n) (id peer nonce : String) (ttl : ℤ) (l : Lease)
      → lease_at d id ≡ found l
      → (l.owner ≢ peer) ⊎ (l.nonce ≢ nonce)
      → let (d', e) = heartbeat n ns c clock d id peer nonce ttl in
        let (d2, e2) = release n ns c clock d id peer nonce in
        (e ≡ some (check_failed lease_stolen))
        × (lease_at d' id ≡ found l)
        × (e2 ≡ some (check_failed lease_stolen))
        × (lease_at d2 id ≡ found l)
  unfolding heartbeat release
  stolen_lease clock d id peer nonce ttl l at other =
      let beats = λ (i : ℕ) (s : Stored). heartbeat_check (clock i) peer nonce (lease_ttl ttl) s in
      let frees = λ (i : ℕ) (s : Stored). release_check peer nonce s in
      let (e, kept) =
        check_fails d id beats lease_stolen
          (ap (beats 0) at ∙ not_mine_heartbeat (clock 0) (lease_ttl ttl) peer nonce l other) in
      let (e2, kept2) =
        check_fails d id frees lease_stolen
          (ap (frees 0) at ∙ not_mine_release peer nonce l other) in
      (e, kept ∙ at, e2, kept2 ∙ at)
