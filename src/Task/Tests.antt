-- ===== src/Task/Tests.antt =====
-- The leases of internal/task/claim.go at concrete inputs.
use mc_prototype.Base.{refl, none, some}
use mc_prototype.Base.{
  Option, eq_iff, some, none, ◌≢◌, String, ℕ, eq_refl, ◌&&◌, str_eq, false, arith, ◌≡◌, true, ◌==◌,
  ℤ, pos, negsuc, Bool,
}
use mc_prototype.Dht.Network.{Network, Codec, IsFaithful}
use mc_prototype.Dht.Samples.{
  keeper, keeper-IsConnected, Content, blank, document, codec, codec-IsFaithful,
}
use mc_prototype.Task.Types.{Lease, no_lease}
use mc_prototype.Dht.Json.{Node, store_local, ns_key}
use mc_prototype.Dht.Json.Medium.{IsMap, shared_view, connected-IsMap}
use mc_prototype.Dht.Cas.OverMap.{put_json_cas_writes}
use mc_prototype.Base.{ap}
use mc_prototype.Task.Claim.{writes}
use mc_prototype.Dht.Cas.Laws.{Succeeds, put_json_cas-Success}
use mc_prototype.Dht.Cas.{put_json_cas, check_failed}
use mc_prototype.Task.Keys.{key_lease}
use mc_prototype.Task.Claim.{LeaseError, Verdict, is_alive, found, lease_busy, lease_ttl}
use mc_prototype.Task.Leases.{stored, claim}
use mc_prototype.Task.Leases.Laws.{lease_at, claim_excludes}

data LeaseDoc : Type 0 where
  empty_object : LeaseDoc
  lease : Lease → LeaseDoc

eq_int : ℤ → ℤ → Bool
eq_int (pos a) (pos b) = a == b
eq_int (negsuc a) (negsuc b) = a == b
eq_int _ _ = false

same : LeaseDoc → LeaseDoc → Bool
unfolding eq_int
same empty_object empty_object = true
same (lease a) (lease b) =
    str_eq a.owner b.owner
    && (str_eq a.nonce b.nonce && ((a.expires == b.expires) && eq_int a.version b.version))
same _ _ = false

eq_int_refl : (z : ℤ) → eq_int z z ≡ true
unfolding eq_int
eq_int_refl (pos a) = ground arith
eq_int_refl (negsuc a) = ground arith

same_refl : (d : LeaseDoc) → same d d ≡ true
unfolding same
same_refl empty_object = refl
same_refl (lease l) = ground (arith, eq_refl l.owner, eq_refl l.nonce, eq_int_refl l.version)

abbrev read_lease : LeaseDoc → Content Lease
read_lease empty_object = blank
read_lease (lease l) = document l

abbrev n : Network
n = keeper LeaseDoc same empty_object

abbrev c : Codec LeaseDoc Lease
c = codec lease read_lease

c-IsFaithful : IsFaithful empty_object no_lease c
c-IsFaithful = codec-IsFaithful empty_object no_lease lease read_lease refl (λ l. refl)

abbrev view : Node n → String → Option LeaseDoc
view = shared_view n "mc" (λ s. s)

view-IsMap : IsMap n "mc" view
view-IsMap = connected-IsMap n "mc" (λ s. s) (keeper-IsConnected LeaseDoc same empty_object)

-- Nothing is stored.
abbrev fresh : Node n
fresh = record { net = λ k. none; local = λ k. none }

-- The job j1 is leased to a.
abbrev held : Lease
held = record { owner = "a"; nonce = "x"; expires = 50000000000; version = pos 3 }

abbrev taken : Node n
taken = record fresh { local = store_local (λ k. none) (ns_key "mc" (key_lease "j1")) (lease held) }

at_taken : lease_at n "mc" c view view-IsMap same_refl c-IsFaithful taken "j1" ≡ found held
unfolding lease_at stored ns_key key_lease
at_taken = refl

abbrev at_60 : ℕ → ℕ
at_60 i = 60000000000

abbrev at_70 : ℕ → ℕ
at_70 i = 70000000000

b_not_empty : ◌≢◌ {A = String} "b" ""
b_not_empty = ground (arith, eq_iff "b" "")

b_not_a : ◌≢◌ {A = String} "a" "b"
b_not_a = ground (arith, eq_iff "a" "b")

abbrev second_lease : Lease
second_lease = record { owner = "b"; nonce = "y"; expires = 80000000000; version = pos 4 }

claim_excludes_example :
    let (d', e) = claim n "mc" c at_60 taken "j1" "b" "y" (pos 0) in
    let (d2, e2) = claim n "mc" c at_70 d' "j1" "c" "z" (pos 5) in
    (e ≡ none)
    × (lease_at n "mc" c view view-IsMap same_refl c-IsFaithful d' "j1" ≡ found second_lease)
    × (e2 ≡ some (check_failed lease_busy))
    × (lease_at n "mc" c view view-IsMap same_refl c-IsFaithful d2 "j1" ≡ found second_lease)
unfolding lease_at stored is_alive lease_ttl ns_key key_lease
claim_excludes_example =
    claim_excludes n "mc" c view view-IsMap same_refl c-IsFaithful at_60 at_70 taken "j1" "b" "y"
      "c" "z" (pos 0) (pos 5) refl b_not_empty (omega arith)

abbrev claims_it : ℕ → Option LeaseDoc → Verdict LeaseError LeaseDoc
claims_it i prev = writes (lease second_lease)

abbrev after_claim : Node n
after_claim = (put_json_cas n "mc" claims_it taken (key_lease "j1")).0

claimed_with : put_json_cas n "mc" claims_it taken (key_lease "j1") ≡ (after_claim, none)
claimed_with =
    ap (λ e. (after_claim, e))
      (put_json_cas_writes n "mc" view view-IsMap same_refl LeaseError claims_it taken
        (key_lease "j1") (lease second_lease) refl).0

put_json_cas-Success_example :
    Succeeds n 0 5 claims_it (ns_key "mc" (key_lease "j1")) taken after_claim
put_json_cas-Success_example =
    put_json_cas-Success n "mc" claims_it taken after_claim (key_lease "j1") claimed_with
